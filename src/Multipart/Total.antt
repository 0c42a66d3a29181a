-- ===== src/Multipart/Total.antt =====
-- The multipart parser ends, stays inside its memory, and gives the callbacks places in the buffer.
use ximg.Prelude.{
  ℕ, zero, suc, ◌+◌, ◌-◌, ◌*◌, ◌^◌, ◌<◌, ◌≤◌, Bool, Bytes, length, get_or, Option, some, ltb, ◌==◌,
  ◌≡◌, refl, sym, arith, Bool-cases, inl, inr, length-replicate, ltb→lt, subst, ◌⊎◌,
}
use ximg.Multipart.{
  XState, s_uninitialized, s_start, s_start_boundary, s_header_field_start, s_header_field,
  s_headers_almost_done, s_header_value_start, s_header_value, s_header_value_almost_done,
  s_part_data_start, s_part_data, s_part_data_almost_boundary, s_part_data_boundary,
  s_part_data_almost_end, s_part_data_end, s_part_data_final_hyphen, s_end, Parser,
  headers_complete, Locals, Outcome, next, stop, Handler, turn, Returned, parse_loop,
  x_multipart_parser_execute, x_multipart_parser_init,
}
use ximg.Multipart.Valid.{
  IsValid, Ordered, IsBehind, rank, rank_le, IsKept, restate, Watch, IsGood, Succeeds,
  emit-Succeeds, give_up-Succeeds, advance-Succeeds,
}
use ximg.Multipart.Handlers.{start_boundary_lem, header_field_lem}
use ximg.Multipart.Body.{
  header_value_lem, part_data_lem, almost_boundary_lem, boundary_lem, final_hyphen_lem,
  data_end_lem,
}

module _ {D : Type 0} (w : Watch D) where
  turn-Succeeds :
      (s : XState) (c : ℕ) (is_last : Bool) (p : Parser) (l : Locals) (d : D)
      → IsValid s p
      → IsBehind l
      → Ordered s l
      → l.i < w.size
      → w.Inv d
      → Succeeds w (2 * (w.size - l.i) + rank s) (turn w.on s c is_last p l d)
  unfolding turn
  turn-Succeeds s_uninitialized c is_last p l d v b o lt i = (_, refl, (omega arith, i))
  turn-Succeeds s_start c is_last p l d v b o lt i =
      start_boundary_lem w _ c _ l d (restate s_start s_start_boundary p 0 v (omega arith)) b lt
        (omega arith) i
  turn-Succeeds s_start_boundary c is_last p l d v b o lt i =
      start_boundary_lem w _ c p l d v b lt (omega arith) i
  turn-Succeeds s_header_field_start c is_last p l d v b o lt i =
      header_field_lem w _ c is_last _ (record l { mark = l.i }) d
        (restate s_header_field_start s_header_field p p.index v (omega arith))
        (record { mark_le = omega arith; dmark_le = b.dmark_le; dbmark_le = b.dbmark_le }) lt
        (omega arith) i
  turn-Succeeds s_header_field c is_last p l d v b o lt i =
      header_field_lem w _ c is_last p l d v b lt (omega arith) i
  turn-Succeeds s_headers_almost_done c is_last p l d v b o lt i =
      let onwards =
        advance-Succeeds w _ s_part_data_start _ l d
          (restate s_headers_almost_done s_part_data_start p p.index v (omega arith)) b
          (omega arith) lt (omega arith) i in
      elim (Bool-cases (c == 10)) [
        | inl e ↦ rw e onwards
        | inr e ↦ rw e (give_up-Succeeds w _ p l d lt i)
      ]
  turn-Succeeds s_header_value_start c is_last p l d v b o lt i = elim (Bool-cases (c == b' ')) [
    | inl e ↦
        rw e (advance-Succeeds w _ s_header_value_start p l d v b (omega arith) lt (omega arith) i)
    | inr e ↦ rw e (
        header_value_lem w _ c is_last _ (record l { mark = l.i }) d
          (restate s_header_value_start s_header_value p p.index v (omega arith))
          (record { mark_le = omega arith; dmark_le = b.dmark_le; dbmark_le = b.dbmark_le }) lt
          (omega arith) i)
  ]
  turn-Succeeds s_header_value c is_last p l d v b o lt i =
      header_value_lem w _ c is_last p l d v b lt (omega arith) i
  turn-Succeeds s_header_value_almost_done c is_last p l d v b o lt i =
      let onwards =
        advance-Succeeds w _ s_header_field_start _ l d
          (restate s_header_value_almost_done s_header_field_start p p.index v (omega arith)) b
          (omega arith) lt (omega arith) i in
      elim (Bool-cases (c == 10)) [
        | inl e ↦ rw e onwards
        | inr e ↦ rw e (give_up-Succeeds w _ p l d lt i)
      ]
  turn-Succeeds s_part_data_start c is_last p l d v b o lt i =
      emit-Succeeds w _ headers_complete p l d _ (omega arith) lt i (λ d' i'.
        part_data_lem w _ c _ (record l { mark = l.i; dmark = l.i }) d'
          (restate s_part_data_start s_part_data p p.index v (omega arith))
          (record { mark_le = omega arith; dmark_le = omega arith; dbmark_le = b.dbmark_le }) lt
          (omega arith) i')
  turn-Succeeds s_part_data c is_last p l d v b o lt i =
      part_data_lem w _ c p l d v b lt (omega arith) i
  turn-Succeeds s_part_data_almost_boundary c is_last p l d v b o lt i =
      almost_boundary_lem w _ c p l d v b o lt (omega arith) i
  turn-Succeeds s_part_data_boundary c is_last p l d v b o lt i =
      boundary_lem w _ c p l d v b o lt (omega arith) i
  turn-Succeeds s_part_data_almost_end c is_last p l d v b o lt i = elim (Bool-cases (c == b'-')) [
    | inl e ↦ rw e (
        advance-Succeeds w _ s_part_data_final_hyphen _ l d
          (restate s_part_data_almost_end s_part_data_final_hyphen p p.index v (omega arith)) b o lt
          (omega arith) i)
    | inr e ↦ rw e (elim (Bool-cases (c == 13)) [
      | inl e' ↦ rw e' (
          advance-Succeeds w _ s_part_data_end _ l d
            (restate s_part_data_almost_end s_part_data_end p p.index v (omega arith)) b o lt
            (omega arith) i)
      | inr e' ↦ rw e' (give_up-Succeeds w _ p l d lt i)
    ])
  ]
  turn-Succeeds s_part_data_final_hyphen c is_last p l d v b o lt i =
      final_hyphen_lem w _ c p l d v b o lt (omega arith) i
  turn-Succeeds s_part_data_end c is_last p l d v b o lt i =
      data_end_lem w _ c p l d v b o lt (omega arith) i
  turn-Succeeds s_end c is_last p l d v b o lt i =
      advance-Succeeds w _ s_end p l d v b (omega arith) lt (omega arith) i

-- What a call that returned leaves: a value of at most the buffer's length, the callbacks' data as it
-- should be, and, if the whole buffer was taken, a parser that can go on with another one.
abbrev pub IsDone : {D : Type 0} → (D → Type 0) → ℕ → Returned D → Type 0
IsDone Inv size r =
    (r.value ≤ size) × Inv r.data_of × ((r.value < size) ⊎ ((s : XState) × IsValid s r.parser))

module _ {D : Type 0} (w : Watch D) where
  by_outcome :
      {m : ℕ} {run : Option (Outcome D)}
      → Succeeds w m run
      → ((p : Parser) × (l : Locals) × (d : D) × (run ≡ some (next p l d))
          × IsGood w m (next p l d))
        ⊎ ((p : Parser) × (d : D) × (v : ℕ) × (run ≡ some (stop p d v)) × IsGood w m (stop p d v))
  by_outcome (next p l d, e, good) = inl (p, l, d, e, good)
  by_outcome (stop p d v, e, good) = inr (p, d, v, e, good)

  parse_loop-IsDone :
      (fuel : ℕ) (buf : Bytes) (s : XState) (p : Parser) (l : Locals) (d : D)
      → length buf ≡ w.size
      → IsValid s p
      → IsBehind l
      → Ordered s l
      → l.i ≤ w.size
      → 2 * (w.size - l.i) + rank s < fuel
      → w.Inv d
      → (r : Returned D) × (parse_loop fuel w.on buf p l d ≡ some r) × IsDone w.Inv w.size r
  unfolding parse_loop
  parse_loop-IsDone zero buf s p l d len v b o le enough i = absurd (omega arith)
  parse_loop-IsDone (suc fuel) buf s p l d len v b o le enough i =
      elim (Bool-cases (ltb l.i (length buf))) [
        | inr past ↦ rw past (_, refl, (omega (arith, len), i, inr (s, v)))
        | inl inside ↦
            let lt : l.i < w.size = rw len at (ltb→lt l.i (length buf) inside) in
            let turned : Succeeds w (2 * (w.size - l.i) + rank s)
                (turn w.on p.x_state (get_or buf l.i 0) (l.i == length buf - 1) p l d) =
              subst
                (λ (x : XState).
                  Succeeds w (2 * (w.size - l.i) + rank s)
                    (turn w.on x (get_or buf l.i 0) (l.i == length buf - 1) p l d))
                (sym v.state)
                (turn-Succeeds w s (get_or buf l.i 0) (l.i == length buf - 1) p l d v b o lt i) in
            rw inside (elim (by_outcome turned) [
              | inl (p', l', d', e, (s', v', b', o', le', less, i')) ↦
                  rw e (parse_loop-IsDone fuel buf s' p' l' d' len v' b' o' le' (omega arith) i')
              | inr (p', d', n, e, (lt', i')) ↦ rw e (_, refl, (omega arith, i', inl lt'))
            ])
      ]

abbrev at_start : Locals
at_start = record { i = 0; mark = 0; dmark = 0; dbmark = 0 }

start-Ordered : (s : XState) → Ordered s at_start
start-Ordered s_uninitialized = omega arith
start-Ordered s_start = omega arith
start-Ordered s_start_boundary = omega arith
start-Ordered s_header_field_start = omega arith
start-Ordered s_header_field = omega arith
start-Ordered s_headers_almost_done = omega arith
start-Ordered s_header_value_start = omega arith
start-Ordered s_header_value = omega arith
start-Ordered s_header_value_almost_done = omega arith
start-Ordered s_part_data_start = omega arith
start-Ordered s_part_data = omega arith
start-Ordered s_part_data_almost_boundary = omega arith
start-Ordered s_part_data_boundary = omega arith
start-Ordered s_part_data_almost_end = omega arith
start-Ordered s_part_data_end = omega arith
start-Ordered s_part_data_final_hyphen = omega arith
start-Ordered s_end = omega arith

pub x_multipart_parser_init-IsValid :
    (boundary : Bytes) → 0 < length boundary → IsValid s_start (x_multipart_parser_init boundary)
unfolding x_multipart_parser_init
x_multipart_parser_init-IsValid boundary h = record {
  state = refl;
  some_boundary = h;
  room = length-replicate (length boundary + 9) 0;
  place = omega arith;
}

-- On a valid parser and a buffer below 2 ^ 64 bytes, with any callbacks, `x_multipart_parser_execute`
-- returns within its fuel and makes no access outside the parser's memory. It returns at most the
-- length of the buffer; a fact on the callbacks' data that holds before, and that every call with a
-- place in the buffer keeps, holds after; and where the whole length is returned, the parser is valid
-- again.
pub x_multipart_parser_execute-IsDone :
    {D : Type 0} (on : Handler D) (Inv : D → Type 0) (buf : Bytes) (s : XState) (p : Parser) (d : D)
    → length buf < 2 ^ 64
    → IsKept on Inv (length buf)
    → IsValid s p
    → Inv d
    → (r : Returned D) × (x_multipart_parser_execute on buf p d ≡ some r)
      × IsDone Inv (length buf) r
unfolding x_multipart_parser_execute
x_multipart_parser_execute-IsDone on Inv buf s p d small kept v i =
    let w : Watch _ = record {
      on = on;
      Inv = Inv;
      size = length buf;
      small = small;
      kept = kept;
    } in
    parse_loop-IsDone w (2 * length buf + 2) buf s p at_start d refl v
      (record { mark_le = omega arith; dmark_le = omega arith; dbmark_le = omega arith })
      (start-Ordered s) (omega arith) (omega (arith, rank_le s)) i
