-- ===== src/Log.antt =====
-- components/stark_log/log_ring.c: the capture ring, a byte ring of whole lines that the storage
-- service drains into the log file.
pub mod Spec
pub mod Lines
pub mod Put
pub mod Take
mod Tests
use stark_one.Base.{
  ℕ, zero, suc, ◌+◌, ◌-◌, ◌%◌, min, Bool, true, false, ◌&&◌, List, [], ◌∷◌, length, get_or, set,
  drop, ltb, ◌==◌, ◌!=◌, if◌then◌else◌, word, wrap,
}

pub record Ring : Type 0 where
  pub buf : List ℕ
  pub cap : ℕ
  pub head : ℕ
  pub len : ℕ
  pub dropped : ℕ

-- '\n'
abbrev pub newline : ℕ
newline = 10

-- `at`
abbrev pub at : Ring → ℕ → ℕ
at r i = get_or r.buf (wrap r.cap r.head i) 0

pub init : List ℕ → ℕ → Ring
init buf cap = record { buf = buf; cap = cap; head = 0; len = 0; dropped = 0 }

-- The `while` of `drop_line`, by the bytes from the `n`-th on.
pub line_end : ℕ → Ring → ℕ → ℕ
line_end zero r n = n
line_end (suc k) r n = elim (ltb n r.len && at r n != newline) [
  | true ↦ line_end k r (n + 1)
  | false ↦ n
]

pub drop_line : Ring → Ring
unfolding line_end
drop_line r =
    let end = line_end r.len r 0 in
    let n = if ltb end r.len then end + 1 else r.len in
    record r { head = wrap r.cap r.head n; len = r.len - n; dropped = (r.dropped + 1) % word }

-- `while (r->cap - r->len < n) drop_line(r)`: `len` bytes are dropped in at most `len` rounds.
pub make_room : ℕ → ℕ → Ring → Ring
unfolding drop_line
make_room zero n r = r
make_room (suc k) n r = elim (ltb (r.cap - r.len) n) [
  | true ↦ make_room k n (drop_line r)
  | false ↦ r
]

-- The `for` of `log_ring_put`, at its `i`-th byte; `(head + len + i) % cap`.
pub copy_in : Ring → ℕ → List ℕ → Ring
copy_in r i [] = r
copy_in r i (x ∷ xs) =
    copy_in (record r { buf = set r.buf (wrap r.cap ((r.head + r.len) % word) i) x }) (i + 1) xs

-- `s` holds the `n` bytes of the call.
pub put : Ring → List ℕ → Ring
unfolding make_room copy_in
put r s =
    if r.cap == 0
    then r
    else (let kept = if ltb r.cap (length s) then drop (length s - r.cap) s else s in
        let room = make_room r.len (length kept) r in
        record (copy_in room 0 kept) { len = room.len + length kept })

-- The first `for` of `log_ring_take`, at its `i`-th byte with `k` to go.
pub last_end : ℕ → Ring → ℕ → ℕ → ℕ
last_end zero r i end = end
last_end (suc k) r i end = last_end k r (i + 1) (if at r i == newline then i + 1 else end)

-- The second `for`: the bytes written to `out`.
pub copy_out : ℕ → Ring → ℕ → List ℕ
copy_out zero r i = []
copy_out (suc k) r i = at r i ∷ copy_out k r (i + 1)

pub record Taken : Type 0 where
  pub out : List ℕ
  pub lost : ℕ
  pub ring : Ring

pub take : Ring → ℕ → Taken
unfolding last_end copy_out
take r max =
    let limit = if ltb r.len max then r.len else max in
    let lines = last_end limit r 0 0 in
    let end = if lines == 0 && limit == max then limit else lines in
    record {
      out = copy_out end r 0;
      lost = r.dropped;
      ring = record r { head = wrap r.cap r.head end; len = r.len - end; dropped = 0 };
    }
