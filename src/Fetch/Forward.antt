-- ===== src/Fetch/Forward.antt =====
-- The ascending fetch of fetch/window.go: spans of heights handed to workers, their answers joined in
-- order, the window ahead of the executor kept full.
pub mod Count
pub mod Cover
pub mod Moves
pub mod Rule
pub mod Reach
use avalanche_s3_archival_no.Prelude.{
  ℕ, zero, suc, ◌+◌, ◌==◌, leb, ltb, add64, sub64, if◌then◌else◌,
}
use avalanche_s3_archival_no.Prelude.{
  Bool, true, false, not, ◌&&◌, ◌||◌, List, [], ◌∷◌, ◌++◌, Option, none, some, length,
}
use avalanche_s3_archival_no.Prelude.Bytes.{Bytes}
use avalanche_s3_archival_no.Fetch.Queue.{Parsed, Queue, RawBlock, append, get_by_height, join_span}

abbrev pub window_blocks : ℕ
window_blocks = 100000

abbrev pub refill_below : ℕ
refill_below = 50000

abbrev pub queue_max_bytes : ℕ
queue_max_bytes = 1073741824

abbrev pub span_blocks : ℕ
span_blocks = 4096

abbrev pub fetch_spans : ℕ
fetch_spans = 16

pub record Span : Type 0 where
  pub lo : ℕ
  pub hi : ℕ

pub record SpanResult : Type 0 where
  pub span : Span
  pub blocks : List RawBlock

-- The variables of `forward`: `job` is the span in `out`, `working` the spans in flight.
pub record Forward : Type 0 where
  pub q : Queue
  pub next : ℕ
  pub redo : List Span
  pub job : Option Span
  pub working : List Span
  pub pending : List SpanResult
  pub filling : Bool

unfoldable pub start_forward : Queue → Forward
start_forward q = record {
  q = q;
  next = add64 q.head 1;
  redo = [];
  job = none;
  working = [];
  pending = [];
  filling = true;
}

unfoldable pub tip_target : ℕ → ℕ → ℕ
tip_target tip ceiling = if ltb 0 ceiling && ((tip == 0) || ltb ceiling tip) then ceiling else tip

unfoldable pub note_tip : ℕ → ℕ → ℕ
note_tip tip h = if leb h tip then tip else h

-- The map from a span's lowest height to its answer, as a list with one entry for a height.
unfoldable pub delete : ℕ → List SpanResult → List SpanResult
delete lo [] = []
delete lo (r ∷ rs) = let rest = delete lo rs in if r.span.lo == lo then rest else r ∷ rest

unfoldable pub put_result : SpanResult → List SpanResult → List SpanResult
unfolding delete
put_result r rs = r ∷ delete r.span.lo rs

-- `spanned`: what is left of the map, and the answer that covers the height.
unfoldable pub spanned : ℕ → List SpanResult → List SpanResult × Option SpanResult
spanned want [] = ([], none)
spanned want (r ∷ rs) =
    let (rest, hit) = spanned want rs in
    if ltb r.span.hi want
    then (rest, hit)
    else if leb r.span.lo want
    then (r ∷ rest, elim hit [ none ↦ some r | some later ↦ some later ])
    else (r ∷ rest, hit)

-- An answer, joined: the rest of its span goes back where it stopped.
unfoldable pub joined : SpanResult → Forward → Forward
unfolding join_span
joined r f =
    let (q, stopped) = join_span f.q r.blocks in
    record f {
      q = q;
      redo = elim stopped [
        | none ↦ f.redo
        | some bad ↦ f.redo ++ (record { lo = bad; hi = r.span.hi } ∷ [])
      ];
    }

-- One round of the joining loop; `none` when no answer covers the next height.
unfoldable pub join_round : Forward → Forward × Bool
unfolding spanned delete joined
join_round f =
    let (rest, hit) = spanned (add64 f.q.head 1) f.pending in
    elim hit [
      | none ↦ (record f { pending = rest }, false)
      | some r ↦ (joined r (record f { pending = delete r.span.lo rest }), true)
    ]

unfoldable pub join_loop : ℕ → Forward → Forward
unfolding join_round
join_loop zero f = f
join_loop (suc fuel) f = elim (join_round f).1 [
  | true ↦ join_loop fuel (join_round f).0
  | false ↦ (join_round f).0
]

-- The window rule: the next height, whether it is filling, the ceiling, and the job.
unfoldable pub next_from : Forward → ℕ
next_from f = if leb f.next f.q.head then add64 f.q.head 1 else f.next

unfoldable pub fills : Forward → Bool
unfolding next_from
fills f =
    if ltb (add64 f.q.consumed window_blocks) (next_from f)
    then false
    else if ltb (sub64 f.q.head f.q.consumed) refill_below
    then true
    else f.filling

unfoldable pub window_target : ℕ → ℕ → Forward → ℕ
unfolding tip_target
window_target tip ceiling f =
    let top = add64 f.q.consumed window_blocks in
    if ltb top (tip_target tip ceiling) then top else tip_target tip ceiling

unfoldable pub has_room : Forward → Bool
unfolding fills
has_room f = fills f && (ltb f.q.bytes queue_max_bytes && ltb (length f.working) fetch_spans)

unfoldable pub span_top : ℕ → ℕ → ℕ
span_top next target =
    let top = sub64 (add64 next span_blocks) 1 in if ltb target top then target else top

unfoldable pub take_job : ℕ → List Span → Forward → Forward
unfolding span_top
take_job target (s ∷ ss) f = record f { job = some s; redo = ss }
take_job target [] f =
    let hi = span_top f.next target in
    if leb f.next target
    then record f { job = some (record { lo = f.next; hi = hi }); next = add64 hi 1 }
    else f

unfoldable pub window_rule : ℕ → ℕ → Forward → Forward
unfolding next_from fills window_target has_room take_job
window_rule tip ceiling f =
    let g = record f { next = next_from f; filling = fills f } in
    elim f.job [
      | some s ↦ g
      | none ↦ if has_room f then take_job (window_target tip ceiling f) f.redo g else g
    ]

-- The two sends of the `select`: the job goes to a worker, or a worker's answer comes in.
unfoldable pub hand_out : Forward → Forward
hand_out f = elim f.job [ none ↦ f | some s ↦ record f { job = none; working = s ∷ f.working } ]

unfoldable pub pull : ℕ → List Span → List Span × Option Span
pull k [] = ([], none)
pull zero (s ∷ ss) = (ss, some s)
pull (suc k) (s ∷ ss) = let (rest, r) = pull k ss in (s ∷ rest, r)

unfoldable pub arrive : ℕ → List RawBlock → Forward → Forward
unfolding pull put_result
arrive k blocks f =
    let (rest, s) = pull k f.working in
    elim s [
      | none ↦ f
      | some span ↦ record f {
        working = rest;
        pending = put_result (record { span = span; blocks = blocks }) f.pending;
      }
    ]
