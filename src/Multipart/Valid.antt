-- ===== src/Multipart/Valid.antt =====
-- What holds in each state of the multipart parser, and what the macros and the step ahead keep.
use ximg.Prelude.{
  ℕ, ◌+◌, ◌-◌, ◌*◌, ◌^◌, ◌<◌, ◌≤◌, length, set, Option, some, ◌≡◌, refl, ◌∙◌, arith, Bool-cases,
  inl, inr, length-set,
}
use ximg.Text.{size_sub}
use ximg.Multipart.{
  XState, s_uninitialized, s_start, s_start_boundary, s_header_field_start, s_header_field,
  s_headers_almost_done, s_header_value_start, s_header_value, s_header_value_almost_done,
  s_part_data_start, s_part_data, s_part_data_almost_boundary, s_part_data_boundary,
  s_part_data_almost_end, s_part_data_end, s_part_data_final_hyphen, s_end, Parser, Event,
  header_field, header_value, chunk_data, Locals, Outcome, next, stop, Handler, moved, advance,
  give_up, emit,
}

-- How far `index` may be in a state.
abbrev pub IndexFits : XState → ℕ → ℕ → Type 0
IndexFits s_start_boundary index len = index ≤ len + 1
IndexFits s_part_data_boundary index len = index < len
IndexFits _ index len = 0 ≤ index

-- The parser between two turns of the loop, and between two calls.
pub record IsValid (s : XState) (p : Parser) : Type 0 where
  pub state : p.x_state ≡ s
  pub some_boundary : 0 < length p.boundary
  pub room : length p.lookbehind ≡ length p.boundary + 9
  pub place : IndexFits s p.index (length p.boundary)

-- In the states behind a carriage return in a part's data, the part is from `dmark` to `dbmark`.
abbrev pub Ordered : XState → Locals → Type 0
Ordered s_part_data_almost_boundary l = l.dmark ≤ l.dbmark
Ordered s_part_data_boundary l = l.dmark ≤ l.dbmark
Ordered s_part_data_almost_end l = l.dmark ≤ l.dbmark
Ordered s_part_data_end l = l.dmark ≤ l.dbmark
Ordered s_part_data_final_hyphen l = l.dmark ≤ l.dbmark
Ordered _ l = 0 ≤ l.i

pub record IsBehind (l : Locals) : Type 0 where
  pub mark_le : l.mark ≤ l.i
  pub dmark_le : l.dmark ≤ l.i
  pub dbmark_le : l.dbmark ≤ l.i

-- The place that an event gives lies in a buffer of `n` bytes.
abbrev pub InBuffer : ℕ → Event → Type 0
InBuffer n (header_field start len) = start + len ≤ n
InBuffer n (header_value start len) = start + len ≤ n
InBuffer n (chunk_data start len) = start + len ≤ n
InBuffer n _ = 0 ≤ n

-- The turns that read one byte a second time.
abbrev pub rank : XState → ℕ
rank s_part_data_almost_boundary = 1
rank s_part_data_boundary = 1
rank _ = 0

-- A predicate on the callbacks' data that every call with a place in the buffer keeps.
abbrev pub IsKept : {D : Type 0} → Handler D → (D → Type 0) → ℕ → Type 0
IsKept {D} on Inv n = (e : Event) (d : D) → InBuffer n e → Inv d → Inv (on e d).0

pub rank_le : (s : XState) → rank s ≤ 1
rank_le s_uninitialized = omega arith
rank_le s_start = omega arith
rank_le s_start_boundary = omega arith
rank_le s_header_field_start = omega arith
rank_le s_header_field = omega arith
rank_le s_headers_almost_done = omega arith
rank_le s_header_value_start = omega arith
rank_le s_header_value = omega arith
rank_le s_header_value_almost_done = omega arith
rank_le s_part_data_start = omega arith
rank_le s_part_data = omega arith
rank_le s_part_data_almost_boundary = omega arith
rank_le s_part_data_boundary = omega arith
rank_le s_part_data_almost_end = omega arith
rank_le s_part_data_end = omega arith
rank_le s_part_data_final_hyphen = omega arith
rank_le s_end = omega arith

pub size_sub-le : (a b : ℕ) → b ≤ a → a < 2 ^ 64 → size_sub a b ≡ a - b
size_sub-le a b le small = omega arith

-- The parser with another state or index.
pub restate :
    (s s' : XState) (p : Parser) (index : ℕ)
    → IsValid s p
    → IndexFits s' index (length p.boundary)
    → IsValid s' (record p { index = index; x_state = s' })
restate s s' p index v place = record {
  state = refl;
  some_boundary = v.some_boundary;
  room = v.room;
  place = place;
}

pub reindex :
    (s : XState) (p : Parser) (index : ℕ)
    → IsValid s p
    → IndexFits s index (length p.boundary)
    → IsValid s (record p { index = index })
reindex s p index v place = record {
  state = v.state;
  some_boundary = v.some_boundary;
  room = v.room;
  place = place;
}

-- The parser with one byte of `lookbehind` set.
pub relook :
    (s : XState) (p : Parser) (k c : ℕ)
    → IsValid s p
    → IsValid s (record p { lookbehind = set p.lookbehind k c })
relook s p k c v = record {
  state = v.state;
  some_boundary = v.some_boundary;
  room = length-set p.lookbehind k c ∙ v.room;
  place = v.place;
}

-- Callbacks that are watched on a buffer of `size` bytes.
pub record Watch (D : Type 0) : Type 1 where
  pub on : Handler D
  pub Inv : D → Type 0
  pub size : ℕ
  pub small : size < 2 ^ 64
  pub kept : IsKept on Inv size

module _ {D : Type 0} (w : Watch D) where
  -- An outcome of a turn at `m`: what holds in front of the next turn, or on the return.
  abbrev pub IsGood : ℕ → Outcome D → Type 0
  IsGood m (next p l d) =
      (s : XState) × IsValid s p
      × IsBehind l
      × Ordered s l
      × (l.i ≤ w.size)
      × (2 * (w.size - l.i) + rank s < m)
      × w.Inv d
  IsGood m (stop p d v) = (v < w.size) × w.Inv d

  abbrev pub Succeeds : ℕ → Option (Outcome D) → Type 0
  Succeeds m r = (o : Outcome D) × (r ≡ some o) × IsGood m o

  pub emit-Succeeds :
      (m : ℕ) (e : Event) (p : Parser) (l : Locals) (d : D) (k : D → Option (Outcome D))
      → InBuffer w.size e
      → l.i < w.size
      → w.Inv d
      → ((d' : D) → w.Inv d' → Succeeds m (k d'))
      → Succeeds m (emit w.on e p l d k)
  unfolding emit
  emit-Succeeds m e p l d k place inside i later = elim (Bool-cases (w.on e d).1) [
    | inl failed ↦ rw failed (_, refl, (inside, w.kept e d place i))
    | inr fine ↦ rw fine (later (w.on e d).0 (w.kept e d place i))
  ]

  pub give_up-Succeeds :
      (m : ℕ) (p : Parser) (l : Locals) (d : D)
      → l.i < w.size
      → w.Inv d
      → Succeeds m (give_up p l d)
  give_up-Succeeds m p l d inside i = (_, refl, (inside, i))

  pub advance-Succeeds :
      (m : ℕ) (s : XState) (p : Parser) (l : Locals) (d : D)
      → IsValid s p
      → IsBehind l
      → Ordered s (moved l)
      → l.i < w.size
      → 2 * (w.size - l.i) ≤ m
      → w.Inv d
      → Succeeds m (advance p l d)
  advance-Succeeds m s p l d v b ordered lt le i =
      (_, refl, (s, v, behind, ordered, omega arith, omega (arith, rank_le s), i))
    where
      behind : IsBehind (moved l)
      behind = record {
        mark_le = omega (arith, b.mark_le);
        dmark_le = omega (arith, b.dmark_le);
        dbmark_le = omega (arith, b.dbmark_le);
      }
