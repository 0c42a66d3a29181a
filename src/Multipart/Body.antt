-- ===== src/Multipart/Body.antt =====
-- The states of the multipart parser in a header's value and in a part's data: their turns succeed
-- and keep the invariant.
use ximg.Prelude.{
  ℕ, ◌+◌, ◌-◌, ◌*◌, ◌<◌, ◌≤◌, Bool, true, length, get_or, leb, ltb, ◌==◌, ◌≡◌, refl, arith,
  Bool-cases, inl, inr,
}
use ximg.Text.{size_sub}
use ximg.Multipart.{
  XState, s_header_field_start, s_header_value, s_header_value_almost_done, s_part_data,
  s_part_data_almost_boundary, s_part_data_boundary, s_part_data_almost_end, s_part_data_end,
  s_part_data_final_hyphen, s_end, Parser, part_data_begin, part_data_end, body_end, Locals, moved,
  again, boundary_at, value_end, at_header_value, at_part_data, at_almost_boundary, at_boundary,
  chunk, at_final_hyphen, at_data_end,
}
use ximg.Multipart.Valid.{
  IsValid, Ordered, IsBehind, InBuffer, size_sub-le, restate, reindex, relook, Watch, Succeeds,
  emit-Succeeds, give_up-Succeeds, advance-Succeeds,
}

module _ {D : Type 0} (w : Watch D) (m : ℕ) where
  value_end_lem :
      (s : XState) (is_last : Bool) (p : Parser) (l : Locals) (d : D)
      → IsValid s p
      → IsBehind l
      → Ordered s (moved l)
      → l.i < w.size
      → 2 * (w.size - l.i) ≤ m
      → w.Inv d
      → Succeeds w m (value_end w.on is_last p l d)
  unfolding value_end
  value_end_lem s is_last p l d v b o lt le i =
      let len : size_sub l.i l.mark ≡ l.i - l.mark =
        size_sub-le l.i l.mark b.mark_le (omega (arith, w.small)) in
      let onwards = λ (d' : D) (i' : w.Inv d'). advance-Succeeds w m s p l d' v b o lt le i' in
      elim (Bool-cases is_last) [
        | inl e ↦ rw e (emit-Succeeds w m _ p l d _ (omega (arith, len, b.mark_le)) lt i onwards)
        | inr e ↦ rw e (onwards d i)
      ]

  pub header_value_lem :
      (c : ℕ) (is_last : Bool) (p : Parser) (l : Locals) (d : D)
      → IsValid s_header_value p
      → IsBehind l
      → l.i < w.size
      → 2 * (w.size - l.i) ≤ m
      → w.Inv d
      → Succeeds w m (at_header_value w.on c is_last p l d)
  unfolding at_header_value
  header_value_lem c is_last p l d v b lt le i =
      let len : size_sub l.i l.mark ≡ l.i - l.mark =
        size_sub-le l.i l.mark b.mark_le (omega (arith, w.small)) in
      let done = restate s_header_value s_header_value_almost_done p p.index v (omega arith) in
      elim (Bool-cases (c == 13)) [
        | inl e ↦ rw e (
            emit-Succeeds w m _ p l d _ (omega (arith, len, b.mark_le)) lt i (λ d' i'.
              value_end_lem s_header_value_almost_done is_last _ l d' done b (omega arith) lt le
                i'))
        | inr e ↦ rw e (value_end_lem s_header_value is_last p l d v b (omega arith) lt le i)
      ]

  pub part_data_lem :
      (c : ℕ) (p : Parser) (l : Locals) (d : D)
      → IsValid s_part_data p
      → IsBehind l
      → l.i < w.size
      → 2 * (w.size - l.i) ≤ m
      → w.Inv d
      → Succeeds w m (at_part_data c p l d)
  unfolding at_part_data
  part_data_lem c p l d v b lt le i =
      let room : ltb 0 (length p.lookbehind) ≡ true = ground (arith, v.room) in
      let found =
        restate s_part_data s_part_data_almost_boundary _ p.index (relook s_part_data p 0 13 v)
          (omega arith) in
      let behind : IsBehind (record l { mark = l.i; dbmark = l.i }) = record {
        mark_le = omega arith;
        dmark_le = b.dmark_le;
        dbmark_le = omega arith;
      } in
      elim (Bool-cases (c == 13)) [
        | inl e ↦
            rw (e, room)
              (advance-Succeeds w m s_part_data_almost_boundary _
                (record l { mark = l.i; dbmark = l.i }) d found behind (b.dmark_le) lt le i)
        | inr e ↦ rw e (advance-Succeeds w m s_part_data p l d v b (omega arith) lt le i)
      ]

  -- The turn that leaves `i` where it is.
  again_lem :
      (s : XState) (p : Parser) (l : Locals) (d : D)
      → IsValid s p
      → IsBehind l
      → l.i < w.size
      → 2 * (w.size - l.i) < m
      → w.Inv d
      → Succeeds w m (again (record p { x_state = s_part_data }) l d)
  again_lem s p l d v b lt le i = (
    _,
    refl,
    (
      s_part_data,
      restate s s_part_data p p.index v (omega arith),
      record { mark_le = omega arith; dmark_le = b.dmark_le; dbmark_le = b.dbmark_le },
      omega arith,
      omega arith,
      omega arith,
      i,
    ),
  )

  pub almost_boundary_lem :
      (c : ℕ) (p : Parser) (l : Locals) (d : D)
      → IsValid s_part_data_almost_boundary p
      → IsBehind l
      → l.dmark ≤ l.dbmark
      → l.i < w.size
      → 2 * (w.size - l.i) < m
      → w.Inv d
      → Succeeds w m (at_almost_boundary c p l d)
  unfolding at_almost_boundary
  almost_boundary_lem c p l d v b o lt le i =
      let room : ltb 1 (length p.lookbehind) ≡ true = ground (arith, v.room) in
      let found =
        restate s_part_data_almost_boundary s_part_data_boundary _ 0
          (relook s_part_data_almost_boundary p 1 10 v) v.some_boundary in
      elim (Bool-cases (c == 10)) [
        | inl e ↦
            rw (e, room)
              (advance-Succeeds w m s_part_data_boundary _ l d found b o lt (omega arith) i)
        | inr e ↦ rw e (again_lem s_part_data_almost_boundary p l d v b lt le i)
      ]

  pub boundary_lem :
      (c : ℕ) (p : Parser) (l : Locals) (d : D)
      → IsValid s_part_data_boundary p
      → IsBehind l
      → l.dmark ≤ l.dbmark
      → l.i < w.size
      → 2 * (w.size - l.i) < m
      → w.Inv d
      → Succeeds w m (at_boundary w.on c p l d)
  unfolding at_boundary boundary_at
  boundary_lem c p l d v b o lt le i =
      let inside : leb p.index (length p.boundary) ≡ true = ground (arith, v.place) in
      let room : ltb (2 + p.index) (length p.lookbehind) ≡ true = ground (arith, v.room, v.place) in
      let seen = relook s_part_data_boundary p (2 + p.index) c v in
      let matched : IsValid s_part_data_almost_end _ =
        restate s_part_data_boundary s_part_data_almost_end _ (p.index + 1) seen (omega arith) in
      rw inside (elim (Bool-cases (get_or p.boundary p.index 0 == c)) [
        | inr e ↦ rw e (again_lem s_part_data_boundary p l d v b lt le i)
        | inl e ↦
            rw (e, room)
              (elim (Bool-cases (p.index + 1 == length p.boundary)) [
                | inl full ↦ rw full (
                    emit-Succeeds w m part_data_end _ l d _ (omega arith) lt i (λ d' i'.
                      advance-Succeeds w m s_part_data_almost_end _ l d' matched b o lt
                        (omega arith) i'))
                | inr more ↦ rw more (
                    advance-Succeeds w m s_part_data_boundary _ l d
                      (reindex s_part_data_boundary _ (p.index + 1) seen (ground (arith, v.place)))
                      b o lt (omega arith) i)
              ])
      ])

  chunk_lem :
      (l : Locals) → l.dmark ≤ l.dbmark → IsBehind l → l.i < w.size → InBuffer w.size (chunk l)
  chunk_lem l o b lt =
      omega
        (arith, size_sub-le l.dbmark l.dmark o (omega (arith, w.small, b.dbmark_le)), b.dbmark_le)

  pub final_hyphen_lem :
      (c : ℕ) (p : Parser) (l : Locals) (d : D)
      → IsValid s_part_data_final_hyphen p
      → IsBehind l
      → l.dmark ≤ l.dbmark
      → l.i < w.size
      → 2 * (w.size - l.i) ≤ m
      → w.Inv d
      → Succeeds w m (at_final_hyphen w.on c p l d)
  unfolding at_final_hyphen
  final_hyphen_lem c p l d v b o lt le i =
      let ended = restate s_part_data_final_hyphen s_end p p.index v (omega arith) in
      emit-Succeeds w m _ p l d _ (chunk_lem l o b lt) lt i (λ d' i'.
        elim (Bool-cases (c == b'-')) [
          | inl e ↦ rw e (
              emit-Succeeds w m body_end p l d' _ (omega arith) lt i'
                (λ d'' i''. advance-Succeeds w m s_end _ l d'' ended b (omega arith) lt le i''))
          | inr e ↦ rw e (give_up-Succeeds w m p l d' lt i')
        ])

  pub data_end_lem :
      (c : ℕ) (p : Parser) (l : Locals) (d : D)
      → IsValid s_part_data_end p
      → IsBehind l
      → l.dmark ≤ l.dbmark
      → l.i < w.size
      → 2 * (w.size - l.i) ≤ m
      → w.Inv d
      → Succeeds w m (at_data_end w.on c p l d)
  unfolding at_data_end
  data_end_lem c p l d v b o lt le i =
      let fresh = restate s_part_data_end s_header_field_start p p.index v (omega arith) in
      elim (Bool-cases (c == 10)) [
        | inl e ↦ rw e (
            emit-Succeeds w m _ p l d _ (chunk_lem l o b lt) lt i (λ d' i'.
              emit-Succeeds w m part_data_begin _ l d' _ (omega arith) lt i' (λ d'' i''.
                advance-Succeeds w m s_header_field_start _ l d'' fresh b (omega arith) lt le i'')))
        | inr e ↦ rw e (give_up-Succeeds w m p l d lt i)
      ]
