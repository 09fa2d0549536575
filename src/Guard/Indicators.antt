-- ===== src/Guard/Indicators.antt =====
-- The indicators that the scan looks for, in lower case.
pub mod Windows
use Prim.Native.Char.{code}
use Prim.Native.String.{String}
use whisez_os.Prelude.{
  ℕ, ◌+◌, Bool, true, false, ◌&&◌, ◌||◌, List, [], ◌∷◌, leb, ltb, if◌then◌else◌, length, take, drop,
}
use whisez_os.Guard.{bytes_eq}

-- The bytes of a text in ASCII.
abbrev pub bytes_of : String → List ℕ
bytes_of String.[] = []
bytes_of (String.◌∷◌ c s) = code c ∷ bytes_of s

-- An indicator and the two halves of its signature.
pub record Indicator : Type 0 where
  pub name : String
  pub first : List ℕ
  pub second : List ℕ

abbrev pub indicator : String → String → String → Indicator
indicator name first second = record {
  name = name;
  first = bytes_of first;
  second = bytes_of second;
}

abbrev pub indicators : List Indicator
indicators =
    indicator "encoded-command" "power" "shell -enc"
    ∷ indicator "base64-loader" "frombase" "64string"
    ∷ indicator "remote-download" "download" "string("
    ∷ indicator "dynamic-execution" "invoke-" "expression"
    ∷ indicator "process-injection" "writeprocess" "memory"
    ∷ indicator "executable-memory" "virtual" "alloc"
    ∷ indicator "signed-binary-proxy" "regsvr32" " /s"
    ∷ indicator "url-cache" "certutil" " -urlcache"
    ∷ indicator "shadow-copy-delete" "vssadmin" " delete shadows"
    ∷ indicator "boot-policy-change" "bcdedit" " /set"
    ∷ indicator "credential-tool-marker" "sekurlsa::" "logonpasswords"
    ∷ []

-- The test of one window.
unfoldable pub window_is : List ℕ → List ℕ → List ℕ → Bool
window_is window first second =
    bytes_eq (take (length first) window) first && bytes_eq (drop (length first) window) second

-- The windows of a width, from each place on that has as many bytes.
unfoldable pub any_window : List ℕ → ℕ → List ℕ → List ℕ → Bool
any_window [] width first second = false
any_window (b ∷ bs) width first second =
    (leb width (length (b ∷ bs)) && window_is (take width (b ∷ bs)) first second)
    || any_window bs width first second

unfoldable pub contains_joined : List ℕ → List ℕ → List ℕ → Bool
contains_joined haystack first second =
    let width = length first + length second in
    ltb 0 width && any_window haystack width first second

unfoldable pub matches_among : List Indicator → List ℕ → List String
matches_among [] bytes = []
matches_among (i ∷ is) bytes =
    let rest = matches_among is bytes in
    if contains_joined bytes i.first i.second then i.name ∷ rest else rest

unfoldable pub indicator_matches : List ℕ → List String
indicator_matches bytes = matches_among indicators bytes
