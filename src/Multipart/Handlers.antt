-- ===== src/Multipart/Handlers.antt =====
-- Each state of the multipart parser: its turn succeeds and keeps the invariant.
use ximg.Prelude.{
  ℕ, ◌+◌, ◌-◌, ◌*◌, ◌<◌, ◌≤◌, Bool, true, length, get_or, leb, ◌==◌, ◌≡◌, arith, Bool-cases, inl,
  inr,
}
use ximg.Text.{size_sub}
use ximg.Multipart.{
  XState, s_start_boundary, s_header_field_start, s_header_field, s_headers_almost_done,
  s_header_value_start, Parser, part_data_begin, Locals, moved, boundary_at, at_start_boundary,
  is_letter, at_header_field,
}
use ximg.Multipart.Valid.{
  IndexFits, IsValid, Ordered, IsBehind, size_sub-le, restate, reindex, Watch, Succeeds,
  emit-Succeeds, give_up-Succeeds, advance-Succeeds,
}

module _ {D : Type 0} (w : Watch D) (m : ℕ) where
  pub start_boundary_lem :
      (c : ℕ) (p : Parser) (l : Locals) (d : D)
      → IsValid s_start_boundary p
      → IsBehind l
      → l.i < w.size
      → 2 * (w.size - l.i) ≤ m
      → w.Inv d
      → Succeeds w m (at_start_boundary w.on c p l d)
  unfolding at_start_boundary boundary_at
  start_boundary_lem c p l d v b lt le i =
      let stopped = give_up-Succeeds w m p l d lt i in
      let onwards = λ (fits : p.index ≤ length p.boundary).
        advance-Succeeds w m s_start_boundary _ l d
          (reindex s_start_boundary p (p.index + 1) v (omega arith)) b (omega arith) lt le i in
      let begun = λ (d' : D) (i' : w.Inv d').
        advance-Succeeds w m s_header_field_start _ l d'
          (restate s_start_boundary s_header_field_start p 0 v (omega arith)) b (omega arith) lt le
          i' in
      elim (Bool-cases (p.index == length p.boundary)) [
        | inl at_end ↦ rw at_end (elim (Bool-cases (c == 13)) [
          | inl e ↦ rw e (onwards (ground arith))
          | inr e ↦ rw e stopped
        ])
        | inr ne ↦ rw ne (elim (Bool-cases (p.index == length p.boundary + 1)) [
          | inl past ↦ rw past (elim (Bool-cases (c == 10)) [
            | inl e ↦ rw e (emit-Succeeds w m part_data_begin _ l d _ (omega arith) lt i begun)
            | inr e ↦ rw e stopped
          ])
          | inr before ↦
              let fits : p.index ≤ length p.boundary = ground (arith, v.place) in
              let ok : leb p.index (length p.boundary) ≡ true = ground arith in
              rw (before, ok)
                (elim (Bool-cases (c == get_or p.boundary p.index 0)) [
                  | inl e ↦ rw e (onwards fits)
                  | inr e ↦ rw e stopped
                ])
        ])
      ]

  pub header_field_lem :
      (c : ℕ) (is_last : Bool) (p : Parser) (l : Locals) (d : D)
      → IsValid s_header_field p
      → IsBehind l
      → l.i < w.size
      → 2 * (w.size - l.i) ≤ m
      → w.Inv d
      → Succeeds w m (at_header_field w.on c is_last p l d)
  unfolding at_header_field
  header_field_lem c is_last p l d v b lt le i =
      let len : size_sub l.i l.mark ≡ l.i - l.mark =
        size_sub-le l.i l.mark b.mark_le (omega (arith, w.small)) in
      let to =
        λ (s : XState) (fits : IndexFits s p.index (length p.boundary)) (o : Ordered s (moved l))
            (d' : D) (i' : w.Inv d').
          advance-Succeeds w m s _ l d' (restate s_header_field s p p.index v fits) b o lt le i' in
      let stay = λ (d' : D) (i' : w.Inv d').
        advance-Succeeds w m s_header_field p l d' v b (omega arith) lt le i' in
      elim (Bool-cases (c == 13)) [
        | inl e ↦ rw e (to s_headers_almost_done (omega arith) (omega arith) d i)
        | inr e ↦ rw e (elim (Bool-cases (c == b'-')) [
          | inl e' ↦ rw e' (stay d i)
          | inr e' ↦ rw e' (elim (Bool-cases (c == b':')) [
            | inl e'' ↦ rw e'' (
                emit-Succeeds w m _ p l d _ (omega (arith, len, b.mark_le)) lt i
                  (to s_header_value_start (omega arith) (omega arith)))
            | inr e'' ↦ rw e'' (elim (Bool-cases (is_letter c)) [
              | inl e3 ↦ rw e3 (elim (Bool-cases is_last) [
                | inl e4 ↦
                    rw e4 (emit-Succeeds w m _ p l d _ (omega (arith, len, b.mark_le)) lt i stay)
                | inr e4 ↦ rw e4 (stay d i)
              ])
              | inr e3 ↦ rw e3 (give_up-Succeeds w m p l d lt i)
            ])
          ])
        ])
      ]
