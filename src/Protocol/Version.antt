-- ===== src/Protocol/Version.antt =====
-- protocol/version.go: version numbers and their tags, 'Q' and three digits. A version number is the
-- uint32 that the conversions take it for.
use plus_quic_go.Base.{
  ℕ, ◌+◌, ◌*◌, ◌/◌, ◌%◌, ◌^◌, ◌<◌, ◌≡◌, Bool, true, false, Option, none, some, List, [], ◌∷◌, ◌==◌,
  if◌then◌else◌, arith,
}
use plus_quic_go.Base.Words.{sub32}

-- 'Q' and '0'
abbrev letter_q : ℕ
letter_q = 81

abbrev digit_zero : ℕ
digit_zero = 48

unfoldable pub version_number_to_tag : ℕ → ℕ
version_number_to_tag v =
    (letter_q
      + (v / 100 % 10 + digit_zero) * 2 ^ 8
      + (v / 10 % 10 + digit_zero) * 2 ^ 16
      + (v % 10 + digit_zero) * 2 ^ 24)
    % 2 ^ 32

unfoldable pub version_tag_to_number : ℕ → ℕ
version_tag_to_number v =
    (sub32 (v / 2 ^ 8 % 256) digit_zero * 100
      + sub32 (v / 2 ^ 16 % 256) digit_zero * 10
      + sub32 (v / 2 ^ 24 % 256) digit_zero)
    % 2 ^ 32

-- IsSupportedVersion
unfoldable pub is_supported_version : List ℕ → ℕ → Bool
is_supported_version [] v = false
is_supported_version (t ∷ ts) v = if t == v then true else is_supported_version ts v

-- ChooseSupportedVersion; `none` is VersionUnsupported. The inner loop looks for our version among
-- theirs.
unfoldable pub choose_supported_version : List ℕ → List ℕ → Option ℕ
unfolding is_supported_version
choose_supported_version [] theirs = none
choose_supported_version (v ∷ ours) theirs =
    if is_supported_version theirs v then some v else choose_supported_version ours theirs

pub version_tag_to_number-tag :
    (v : ℕ) → v < 1000 → version_tag_to_number (version_number_to_tag v) ≡ v
unfolding version_tag_to_number version_number_to_tag
version_tag_to_number-tag v h =
    let a : version_number_to_tag v / 2 ^ 8 % 256 ≡ v / 100 % 10 + 48 = omega arith in
    let b : version_number_to_tag v / 2 ^ 16 % 256 ≡ v / 10 % 10 + 48 = omega arith in
    let c : version_number_to_tag v / 2 ^ 24 % 256 ≡ v % 10 + 48 = omega arith in
    rw (a, b, c) (omega arith)
