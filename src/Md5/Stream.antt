-- ===== src/Md5/Stream.antt =====
-- `md5_append` takes the state of a message to the state of the longer message.
use ximg.Prelude.{
  ℕ, ◌+◌, ◌-◌, ◌*◌, ◌%◌, ◌^◌, ◌<◌, ◌≤◌, [], ◌++◌, Bytes, length, take, drop, ◌≡◌, refl, sym, ap,
  subst, ◌∙◌, arith, length-append, length-take, take_all, take-append-drop, append_assoc,
  append-nil, Bool-cases, nil_of_length, ==_iff, inl, inr, ◌==◌, if◌then◌else◌, ltb, false, ltb→lt,
}
use ximg.Md5.{
  Abcd, Md5State, md5_process, md5_init, initial, copy_into, full_blocks, append_blocks, add_count,
  append_at, md5_append,
}
use ximg.Md5.Blocks.{Holds, full_blocks-snoc, append_blocks-Holds, length-copy_into, take-copy_into}
use ximg.Md5.Count.{Counts, add_count-Counts, offset_lem}

-- The whole state stands for `msg`.
pub record Represents (s : Md5State) (msg : Bytes) : Type 0 where
  pub blocks : Holds s msg
  pub counts : Counts s (length msg)

pub md5_init-Represents : (buf : Bytes) → length buf ≡ 64 → Represents (md5_init buf) []
unfolding md5_init full_blocks
md5_init-Represents buf room = record {
  blocks = record {
    full = [];
    left = [];
    blocks = 0;
    splits = refl;
    whole = refl;
    partial = omega arith;
    digested = refl;
    buffered = refl;
    room = room;
  };
  counts = record { low = refl; high = refl };
}

-- The text fits the buffer behind what is there.
Holds-partial :
    (s : Md5State) (msg p : Bytes) (h : Holds s msg)
    → length h.left + length p < 64
    → Holds (record s { buf = copy_into s.buf (length h.left) p }) (msg ++ p)
Holds-partial s msg p h fits = record {
  full = h.full;
  left = h.left ++ p;
  blocks = h.blocks;
  splits = ap (λ (m : Bytes). m ++ p) h.splits ∙ append_assoc h.full h.left p;
  whole = h.whole;
  partial = omega (arith, length-append h.left p);
  digested = h.digested;
  buffered =
      take-copy_into s.buf (length h.left) p (length (h.left ++ p))
        (omega (arith, h.room, h.partial)) (length-append h.left p)
      ∙ ap (λ (l : Bytes). l ++ p) h.buffered;
  room = length-copy_into s.buf (length h.left) p (omega (arith, h.room)) ∙ h.room;
}

-- The text fills the buffer: that block is processed, then the rest.
Holds-filled :
    (s : Md5State) (msg p : Bytes) (h : Holds s msg) (copy : ℕ)
    → length h.left + copy ≡ 64
    → copy ≤ length p
    → let buf = copy_into s.buf (length h.left) (take copy p) in
      Holds
        (append_blocks (record s { buf = buf; abcd = md5_process s.abcd buf }) (drop copy p))
        (msg ++ p)
Holds-filled s msg p h copy e fits =
    let q = take copy p in
    let buf = copy_into s.buf (length h.left) q in
    let len : length q ≡ copy = omega (arith, length-take copy p) in
    let size : length buf ≡ 64 =
      length-copy_into s.buf (length h.left) q (omega (arith, h.room)) ∙ h.room in
    let block : buf ≡ h.left ++ q =
      sym (take_all 64 buf (omega arith))
      ∙ take-copy_into s.buf (length h.left) q 64 (omega (arith, h.room)) (omega arith)
      ∙ ap (λ (l : Bytes). l ++ q) h.buffered in
    let whole : length (h.full ++ buf) ≡ 64 * (h.blocks + 1) =
      omega (arith, length-append h.full buf, h.whole) in
    let digested : md5_process s.abcd buf ≡ full_blocks (h.blocks + 1) initial (h.full ++ buf) =
      ap (λ (r : Abcd). md5_process r buf) h.digested
      ∙ sym (full_blocks-snoc h.blocks initial h.full buf h.whole size) in
    let split : (h.full ++ buf) ++ drop copy p ≡ msg ++ p =
      rw (block, h.splits) (simp append_assoc (rw (take-append-drop copy p))) in
    subst
      (Holds (append_blocks (record s { buf = buf; abcd = md5_process s.abcd buf }) (drop copy p)))
      split
      (append_blocks-Holds (record s { buf = buf; abcd = md5_process s.abcd buf }) (h.full ++ buf)
        (h.blocks + 1) (drop copy p) whole digested size)

add_count-Holds : (s : Md5State) (n : ℕ) (msg : Bytes) → Holds s msg → Holds (add_count s n) msg
unfolding add_count
add_count-Holds s n msg h = record {
  full = h.full;
  left = h.left;
  blocks = h.blocks;
  splits = h.splits;
  whole = h.whole;
  partial = h.partial;
  digested = h.digested;
  buffered = h.buffered;
  room = h.room;
}

length-left : {s : Md5State} (msg : Bytes) (h : Holds s msg) → length h.left ≡ length msg % 64
length-left msg h =
    omega (arith, ap length h.splits, length-append h.full h.left, h.whole, h.partial)

append_at-Holds :
    (s : Md5State) (msg input : Bytes) (h : Holds s msg)
    → Holds (append_at (length h.left) s input) (msg ++ input)
unfolding append_at
append_at-Holds s msg input h = elim (Bool-cases (length h.left == 0)) [
  | inl aligned ↦ rw aligned (
      let e : h.full ≡ msg =
        sym (append-nil h.full)
        ∙ sym (ap (◌++◌ h.full) (nil_of_length h.left ((==_iff (length h.left) 0).0 aligned)))
        ∙ sym h.splits in
      rw (← e) (append_blocks-Holds s h.full h.blocks input h.whole h.digested h.room))
  | inr offset ↦ rw offset (elim (Bool-cases (ltb 64 (length h.left + length input))) [
    | inl more ↦
        let copy = 64 - length h.left in
        let e : ltb (length h.left + copy) 64 ≡ false = ground (arith, h.partial) in
        let room : copy ≤ length input = ground arith in
        rw (more, e) (Holds-filled s msg input h copy (omega (arith, h.partial)) room)
    | inr all_fits ↦ rw all_fits (elim (Bool-cases (ltb (length h.left + length input) 64)) [
      | inl below ↦
          rw (below, take_all (length input) input (omega arith))
            (Holds-partial s msg input h (ltb→lt _ _ below))
      | inr full ↦
          rw full
            (Holds-filled s msg input h (length input) (ground (arith, h.partial)) (omega arith))
    ])
  ])
]

md5_append-Holds :
    (s : Md5State) (msg input : Bytes)
    → Represents s msg
    → Holds (md5_append s input) (msg ++ input)
unfolding md5_append
md5_append-Holds s msg input r =
    let n = length input in
    let h = add_count-Holds s n msg r.blocks in
    elim (Bool-cases (n == 0)) [
      | inl none_in ↦
          rw (none_in, nil_of_length input ((==_iff n 0).0 none_in), append-nil) r.blocks
      | inr some_in ↦
          rw (some_in, offset_lem s (length msg) r.counts, ← length-left msg h)
            (append_at-Holds (add_count s n) msg input h)
    ]

append_blocks-Counts :
    (s : Md5State) (p : Bytes) (n : ℕ) → Counts s n → Counts (append_blocks s p) n
unfolding append_blocks
append_blocks-Counts s p n c = ground (arith, c.low, c.high)

append_at-Counts :
    (offset : ℕ) (s : Md5State) (p : Bytes) (n : ℕ) → Counts s n → Counts (append_at offset s p) n
unfolding append_at
append_at-Counts offset s p n c =
    let copy = if ltb 64 (offset + length p) then 64 - offset else length p in
    let buf = copy_into s.buf offset (take copy p) in
    ground (
      arith,
      append_blocks-Counts s p n c,
      append_blocks-Counts (record s { buf = buf; abcd = md5_process s.abcd buf }) (drop copy p) n
          (record { low = c.low; high = c.high }),
    )

-- From a state that stands for a message, `md5_append` reaches one that stands for the message with
-- the new bytes behind it: its full blocks processed, the rest buffered, its bits counted.
pub md5_append-Represents :
    (s : Md5State) (msg input : Bytes)
    → length input < 2 ^ 28
    → Represents s msg
    → Represents (md5_append s input) (msg ++ input)
unfolding md5_append
md5_append-Represents s msg input small r = record {
  blocks = md5_append-Holds s msg input r;
  counts = rw (length-append msg input) (elim (Bool-cases (length input == 0)) [
    | inl e ↦
        let z = (==_iff (length input) 0).0 e in
        let same : length msg ≡ length msg + length input = omega arith in
        rw e (subst (Counts s) same r.counts)
    | inr e ↦ rw e (
        append_at-Counts _ (add_count s (length input)) input _
          (add_count-Counts s (length msg) (length input) (omega arith) r.counts))
  ]);
}
