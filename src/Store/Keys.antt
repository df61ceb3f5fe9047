-- ===== src/Store/Keys.antt =====
-- The keys of slices and of scans, which the code writes with f-strings.
use Prim.Native.String.{String, ◌++◌}
use books_of_time.Base.{◌≡◌, refl, ℕ, zero, suc, ◌/◌, ◌%◌, List, [], ◌∷◌, ltb, if◌then◌else◌}
use books_of_time.Scan.Types.{CommentScanMode}

abbrev pub nth : List String → ℕ → String
nth [] n = ""
nth (x ∷ xs) zero = x
nth (x ∷ xs) (suc n) = nth xs n

abbrev pub digit : ℕ → String
digit = nth ("0" ∷ "1" ∷ "2" ∷ "3" ∷ "4" ∷ "5" ∷ "6" ∷ "7" ∷ "8" ∷ "9" ∷ [])

-- `str` of an int; a number has at most as many digits as its successor.
unfoldable pub decimal_on : (fuel : ℕ) → ℕ → String
decimal_on zero n = ""
decimal_on (suc fuel) n =
    let rest = decimal_on fuel (n / 10) in if ltb n 10 then digit n else rest ++ digit (n % 10)

unfoldable pub decimal : ℕ → String
decimal n = decimal_on (suc n) n

-- `mode.value`
abbrev pub mode_value : CommentScanMode → String
mode_value CommentScanMode.hot_core = "hot_core"
mode_value CommentScanMode.hot_deep = "hot_deep"
mode_value CommentScanMode.baseline_tail = "baseline_tail"
mode_value CommentScanMode.baseline_head_sweep = "baseline_head_sweep"
mode_value CommentScanMode.incremental = "incremental"
mode_value CommentScanMode.full_reconciliation = "full_reconciliation"
mode_value CommentScanMode.segmented_reconciliation = "segmented_reconciliation"
mode_value CommentScanMode.reply_refresh = "reply_refresh"
mode_value CommentScanMode.visibility_probe = "visibility_probe"

-- `f"{scan_id}:{mode.value}:{slice_no}"`
unfoldable pub slice_key : (scan_id : ℕ) → CommentScanMode → (slice_no : ℕ) → String
slice_key scan_id mode slice_no =
    decimal scan_id ++ ":" ++ mode_value mode ++ ":" ++ decimal slice_no

-- `f"{parent.scan_key}:baseline_head_sweep"`
unfoldable pub head_sweep_key : String → String
head_sweep_key scan_key = scan_key ++ ":baseline_head_sweep"

key_test : (slice_key 120 CommentScanMode.hot_core 7) ≡ "120:hot_core:7"
unfolding slice_key decimal decimal_on
key_test = refl
