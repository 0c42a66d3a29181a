-- ===== src/Multipart.antt =====
-- src/xparser.c: the parser of multipart bodies. The callbacks and what they change are an argument:
-- `on e d` is the new data and whether the callback's result is not 0. A callback that is not set
-- changes nothing and gives `false`. A callback may write to the buffer in front of `i` only, which
-- the loop does not read again. `none` is an access outside the parser's memory, or no fuel.
pub mod Valid
pub mod Handlers
pub mod Body
pub mod Total
use ximg.Prelude.{
  ℕ, zero, suc, ◌+◌, ◌-◌, ◌*◌, Bool, ◌&&◌, ◌||◌, Bytes, length, replicate, get_or, Option, none,
  some, leb, ltb, ◌==◌, if◌then◌else◌,
}
use ximg.Prelude.Memory.{◌>>=◌, store}
use ximg.Text.{size_sub}

pub data XState : Type 0 where
  s_uninitialized s_start s_start_boundary s_header_field_start s_header_field : XState
  s_headers_almost_done s_header_value_start s_header_value s_header_value_almost_done : XState
  s_part_data_start s_part_data s_part_data_almost_boundary s_part_data_boundary : XState
  s_part_data_almost_end s_part_data_end s_part_data_final_hyphen s_end : XState

-- `boundary` is the text in front of its NUL, and `lookbehind` the bytes from that pointer on.
pub record Parser : Type 0 where
  pub index : ℕ
  pub x_state : XState
  pub boundary : Bytes
  pub lookbehind : Bytes

-- A call of a callback. The data events give the place in the buffer and the length.
pub data Event : Type 0 where
  part_data_begin headers_complete part_data_end body_end : Event
  header_field header_value chunk_data : ℕ → ℕ → Event

-- The local variables of the loop.
pub record Locals : Type 0 where
  pub i : ℕ
  pub mark : ℕ
  pub dmark : ℕ
  pub dbmark : ℕ

-- One turn of the loop goes to the next one, with `++i` done, or returns from the function.
pub data Outcome (D : Type 0) : Type 0 where
  next : Parser → Locals → D → Outcome D
  stop : Parser → D → ℕ → Outcome D

abbrev pub Handler : Type 0 → Type 0
Handler D = Event → D → D × Bool

-- The memory behind the struct: `strlen + strlen + 9` bytes, the boundary with its NUL first.
unfoldable pub x_multipart_parser_init : Bytes → Parser
x_multipart_parser_init boundary = record {
  index = 0;
  x_state = s_start;
  boundary = boundary;
  lookbehind = replicate (length boundary + 9) 0;
}

abbrev pub moved : Locals → Locals
moved l = record l { i = l.i + 1 }

abbrev pub advance : {D : Type 0} → Parser → Locals → D → Option (Outcome D)
advance p l d = some (next p (moved l) d)

-- `mark = i--` and the `++i` behind the switch.
abbrev pub again : {D : Type 0} → Parser → Locals → D → Option (Outcome D)
again p l d = some (next p (record l { mark = l.i }) d)

abbrev pub give_up : {D : Type 0} → Parser → Locals → D → Option (Outcome D)
give_up p l d = some (stop p d l.i)

-- `X_NOTIFY_CB` and `X_EMIT_DATA_CB`, and what stands behind them.
unfoldable pub emit :
    {D : Type 0}
    → Handler D
    → Event
    → Parser
    → Locals
    → D
    → (D → Option (Outcome D))
    → Option (Outcome D)
emit on e p l d then_do = let r = on e d in if r.1 then give_up p l r.0 else then_do r.0

-- `x_multipart_boundary[index]`
unfoldable pub boundary_at : Parser → Option ℕ
boundary_at p = if leb p.index (length p.boundary) then some (get_or p.boundary p.index 0) else none

unfoldable pub at_start_boundary :
    {D : Type 0} → Handler D → ℕ → Parser → Locals → D → Option (Outcome D)
at_start_boundary on c p l d =
    let fresh = record p { index = 0 } in
    if p.index == length p.boundary
    then if c == 13 then advance (record p { index = p.index + 1 }) l d else give_up p l d
    else if p.index == length p.boundary + 1
    then if c == 10
      then emit on part_data_begin fresh l d
          (λ d'. advance (record fresh { x_state = s_header_field_start }) l d')
      else give_up p l d
    else (do
      b ← boundary_at p
      if c == b then advance (record p { index = p.index + 1 }) l d else give_up p l d)

-- `cl >= 'a' && cl <= 'z'` for `cl = tolower(c)`
abbrev pub is_letter : ℕ → Bool
is_letter c = (leb b'a' c && leb c b'z') || (leb b'A' c && leb c b'Z')

unfoldable pub at_header_field :
    {D : Type 0} → Handler D → ℕ → Bool → Parser → Locals → D → Option (Outcome D)
at_header_field on c is_last p l d =
    let len = size_sub l.i l.mark in
    if c == 13
    then advance (record p { x_state = s_headers_almost_done }) l d
    else if c == b'-'
    then advance p l d
    else if c == b':'
    then emit on (header_field l.mark len) p l d
        (λ d'. advance (record p { x_state = s_header_value_start }) l d')
    else if is_letter c
    then if is_last
      then emit on (header_field l.mark (len + 1)) p l d (λ d'. advance p l d')
      else advance p l d
    else give_up p l d

-- The lines behind the first `if` of `s_header_value`.
unfoldable pub value_end :
    {D : Type 0} → Handler D → Bool → Parser → Locals → D → Option (Outcome D)
value_end on is_last p l d =
    if is_last
    then emit on (header_value l.mark (size_sub l.i l.mark + 1)) p l d (λ d'. advance p l d')
    else advance p l d

unfoldable pub at_header_value :
    {D : Type 0} → Handler D → ℕ → Bool → Parser → Locals → D → Option (Outcome D)
at_header_value on c is_last p l d =
    if c == 13
    then emit on (header_value l.mark (size_sub l.i l.mark)) p l d
        (λ d'. value_end on is_last (record p { x_state = s_header_value_almost_done }) l d')
    else value_end on is_last p l d

unfoldable pub at_part_data : {D : Type 0} → ℕ → Parser → Locals → D → Option (Outcome D)
at_part_data c p l d =
    if c == 13
    then (do
      lookbehind ← store p.lookbehind 0 13
      advance (record p { x_state = s_part_data_almost_boundary; lookbehind = lookbehind })
          (record l { mark = l.i; dbmark = l.i }) d)
    else advance p l d

unfoldable pub at_almost_boundary : {D : Type 0} → ℕ → Parser → Locals → D → Option (Outcome D)
at_almost_boundary c p l d =
    if c == 10
    then (do
      lookbehind ← store p.lookbehind 1 10
      advance (record p { index = 0; x_state = s_part_data_boundary; lookbehind = lookbehind }) l d)
    else again (record p { x_state = s_part_data }) l d

unfoldable pub at_boundary : {D : Type 0} → Handler D → ℕ → Parser → Locals → D → Option (Outcome D)
at_boundary on c p l d = do
  b ← boundary_at p
  if b == c
      then (do
        lookbehind ← store p.lookbehind (2 + p.index) c
        let q = record p { index = p.index + 1; lookbehind = lookbehind }
        if p.index + 1 == length p.boundary
            then emit on part_data_end q l d
                (λ d'. advance (record q { x_state = s_part_data_almost_end }) l d')
            else advance q l d)
      else again (record p { x_state = s_part_data }) l d

abbrev pub chunk : Locals → Event
chunk l = chunk_data l.dmark (size_sub l.dbmark l.dmark)

unfoldable pub at_final_hyphen :
    {D : Type 0} → Handler D → ℕ → Parser → Locals → D → Option (Outcome D)
at_final_hyphen on c p l d = emit on (chunk l) p l d (λ d'.
    if c == b'-'
    then emit on body_end p l d' (λ d''. advance (record p { x_state = s_end }) l d'')
    else give_up p l d')

unfoldable pub at_data_end : {D : Type 0} → Handler D → ℕ → Parser → Locals → D → Option (Outcome D)
at_data_end on c p l d =
    let q = record p { x_state = s_header_field_start } in
    if c == 10
    then emit on (chunk l) p l d (λ d'. emit on part_data_begin q l d' (λ d''. advance q l d''))
    else give_up p l d

-- The body of the loop for `c = buf[i]`: the switch on `x_state`.
unfoldable pub turn :
    {D : Type 0} → Handler D → XState → ℕ → Bool → Parser → Locals → D → Option (Outcome D)
turn on s_uninitialized c is_last p l d = some (stop p d 0)
turn on s_start c is_last p l d =
    at_start_boundary on c (record p { index = 0; x_state = s_start_boundary }) l d
turn on s_start_boundary c is_last p l d = at_start_boundary on c p l d
turn on s_header_field_start c is_last p l d =
    at_header_field on c is_last (record p { x_state = s_header_field }) (record l { mark = l.i }) d
turn on s_header_field c is_last p l d = at_header_field on c is_last p l d
turn on s_headers_almost_done c is_last p l d =
    if c == 10 then advance (record p { x_state = s_part_data_start }) l d else give_up p l d
turn on s_header_value_start c is_last p l d =
    if c == b' '
    then advance p l d
    else at_header_value on c is_last (record p { x_state = s_header_value })
        (record l { mark = l.i }) d
turn on s_header_value c is_last p l d = at_header_value on c is_last p l d
turn on s_header_value_almost_done c is_last p l d =
    if c == 10 then advance (record p { x_state = s_header_field_start }) l d else give_up p l d
turn on s_part_data_start c is_last p l d = emit on headers_complete p l d (λ d'.
    at_part_data c (record p { x_state = s_part_data }) (record l { mark = l.i; dmark = l.i }) d')
turn on s_part_data c is_last p l d = at_part_data c p l d
turn on s_part_data_almost_boundary c is_last p l d = at_almost_boundary c p l d
turn on s_part_data_boundary c is_last p l d = at_boundary on c p l d
turn on s_part_data_almost_end c is_last p l d =
    if c == b'-'
    then advance (record p { x_state = s_part_data_final_hyphen }) l d
    else if c == 13
    then advance (record p { x_state = s_part_data_end }) l d
    else give_up p l d
turn on s_part_data_final_hyphen c is_last p l d = at_final_hyphen on c p l d
turn on s_part_data_end c is_last p l d = at_data_end on c p l d
turn on s_end c is_last p l d = advance p l d

pub record Returned (D : Type 0) : Type 0 where
  pub value : ℕ
  pub parser : Parser
  pub data_of : D

unfoldable pub parse_loop :
    {D : Type 0} → ℕ → Handler D → Bytes → Parser → Locals → D → Option (Returned D)
parse_loop zero on buf p l d = none
parse_loop (suc fuel) on buf p l d =
    let run = (do
      o ← turn on p.x_state (get_or buf l.i 0) (l.i == length buf - 1) p l d
      elim o [
        | next p' l' d' ↦ parse_loop fuel on buf p' l' d'
        | stop p' d' n ↦ some (record { value = n; parser = p'; data_of = d' })
      ]) in
    if ltb l.i (length buf)
    then run
    else some (record { value = length buf; parser = p; data_of = d })

unfoldable pub x_multipart_parser_execute :
    {D : Type 0} → Handler D → Bytes → Parser → D → Option (Returned D)
x_multipart_parser_execute on buf p d =
    parse_loop (2 * length buf + 2) on buf p (record { i = 0; mark = 0; dmark = 0; dbmark = 0 }) d
