-- ===== src/Frontier/Samples.antt =====
-- A format of instants, anchors, and a table with the frontier of one video.
use Prim.Native.Char.{char}
use books_of_time.Base.{ℕ, zero, suc, ◌≡◌, refl, ap, false, none, some, String, [], ◌∷◌}
use books_of_time.Base.Int.{pos}
use books_of_time.Base.Text.{len}
use books_of_time.Base.Time.{naive, aware}
use books_of_time.Base.Values.{empty}
use books_of_time.Frontier.Anchors.{IsoText, AnchorComment}
use books_of_time.Frontier.{
  FrontierState, FrontierTable, FrontierStateUpdate, FrontierKey, new_frontier,
}
use books_of_time.Frontier.Anchors.{anchor_set}
use books_of_time.Scan.Types.{Anchor}

-- A format that writes an instant as so many strokes.
unfoldable pub strokes : ℕ → String
strokes zero = String.[]
strokes (suc n) = String.◌∷◌ (char 124 tt) (strokes n)

abbrev pub iso : IsoText
iso = record {
  fromisoformat = λ text. some (aware (len text));
  isoformat = strokes;
  astimezone = λ d. elim d [ naive t ↦ t | aware t ↦ t ];
}

len-strokes : (n : ℕ) → len (strokes n) ≡ n
unfolding len strokes
len-strokes zero = refl
len-strokes (suc n) = ap (λ (k : ℕ). suc k) (len-strokes n)

pub iso_reads : (t : ℕ) → iso.fromisoformat (iso.isoformat t) ≡ some (aware t)
iso_reads t = ap (λ (n : ℕ). some (aware n)) (len-strokes t)

abbrev pub anchor : Anchor
anchor = record { rpid = 9; platform_created_at = some "|||" }

abbrev pub comment : AnchorComment
comment = record { rpid = pos 9; platform_created_at = some (aware 3) }

abbrev pub key : FrontierKey
key = record { target_type = "video"; target_id = "BV1"; frontier_type = "latest_comments" }

abbrev pub frontier : FrontierState
frontier = new_frontier 1 10 key

abbrev pub frontiers : FrontierTable
frontiers = record { rows = frontier ∷ []; next_id = 2 }

abbrev pub update : FrontierStateUpdate
update = record {
  frontier_rpid = some (pos 9);
  frontier_time = some (aware 3);
  frontier_anchor_set = anchor_set (anchor ∷ []);
  active_scan_run_id = some 4;
  cursor = none;
  last_scan_at = some (aware 20);
  last_scan_status = some "running";
  last_scan_pages = pos 1;
  last_scan_truncated = false;
  extra = empty;
}
