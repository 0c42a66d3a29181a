-- ===== src/Md5/Blocks.antt =====
-- The block loop of `md5_append`, over a text that is cut anywhere at a block's end.
use ximg.Prelude.{
  ℕ, zero, suc, ◌+◌, ◌*◌, ◌/◌, ◌<◌, ◌≤◌, [], ◌∷◌, ◌++◌, Bytes, length, take, drop, ◌≡◌, refl, sym,
  ap, ◌∙◌, arith, length-append, length-take, length-drop, take_all, take-append_le, drop-append_le,
  take-append-drop, take-append_self, append_assoc, Bool-cases, nil_of_length, ap₂, ==_iff, inl,
  inr, ◌==◌,
}
use ximg.Md5.{Abcd, Md5State, md5_process, initial, copy_into, full_blocks, append_blocks}

full_blocks-append :
    (m k : ℕ) (r : Abcd) (xs ys : Bytes)
    → length xs ≡ 64 * m
    → full_blocks (m + k) r (xs ++ ys) ≡ full_blocks k (full_blocks m r xs) ys
unfolding full_blocks
full_blocks-append zero k r [] ys h = let e : zero + k ≡ k = omega arith in rw e
full_blocks-append zero k r (x ∷ xs) ys h = absurd (omega arith)
full_blocks-append (suc m) k r xs ys h =
    let e : suc m + k ≡ suc (m + k) = omega arith in
    rw e (
      ap₂ (λ (t d : Bytes). full_blocks (m + k) (md5_process r t) d)
        (take-append_le 64 xs ys (omega arith)) (drop-append_le 64 xs ys (omega arith))
      ∙ full_blocks-append m k (md5_process r (take 64 xs)) (drop 64 xs) ys
          (omega (arith, length-drop 64 xs)))

-- One more block.
pub full_blocks-snoc :
    (m : ℕ) (r : Abcd) (xs block : Bytes)
    → length xs ≡ 64 * m
    → length block ≡ 64
    → full_blocks (m + 1) r (xs ++ block) ≡ md5_process (full_blocks m r xs) block
unfolding full_blocks
full_blocks-snoc m r xs block h e =
    full_blocks-append m 1 r xs block h
    ∙ ap (md5_process (full_blocks m r xs)) (take_all 64 block (omega arith))

-- The loop reads no further than its blocks.
full_blocks_read :
    (n : ℕ) (r : Abcd) (p : Bytes)
    → 64 * n ≤ length p
    → full_blocks n r p ≡ full_blocks n r (take (64 * n) p)
unfolding full_blocks
full_blocks_read n r p h =
    let q = take (64 * n) p in
    let e : n + 0 ≡ n = omega arith in
    rw e at (
      ap (full_blocks (n + 0) r) (sym (take-append-drop (64 * n) p))
      ∙ full_blocks-append n 0 r q (drop (64 * n) p) (omega (arith, length-take (64 * n) p)))

-- The registers and the buffer are those of a message: its full blocks are processed, and what is
-- left of it stands at the front of the buffer.
pub record Holds (s : Md5State) (msg : Bytes) : Type 0 where
  pub full : Bytes
  pub left : Bytes
  pub blocks : ℕ
  pub splits : msg ≡ full ++ left
  pub whole : length full ≡ 64 * blocks
  pub partial : length left < 64
  pub digested : s.abcd ≡ full_blocks blocks initial full
  pub buffered : take (length left) s.buf ≡ left
  pub room : length s.buf ≡ 64

pub length-copy_into :
    (buf : Bytes) (offset : ℕ) (p : Bytes)
    → offset + length p ≤ length buf
    → length (copy_into buf offset p) ≡ length buf
length-copy_into buf offset p h = omega (
  arith,
  length-append (take offset buf) (p ++ drop (offset + length p) buf),
  length-append p (drop (offset + length p) buf),
  length-take offset buf,
  length-drop (offset + length p) buf,
)

-- What is read back up to the end of the copied bytes.
pub take-copy_into :
    (buf : Bytes) (offset : ℕ) (p : Bytes) (n : ℕ)
    → offset ≤ length buf
    → n ≡ offset + length p
    → take n (copy_into buf offset p) ≡ take offset buf ++ p
take-copy_into buf offset p n h e =
    rw (← append_assoc (take offset buf) p (drop (offset + length p) buf)) (
      take-append_self n (take offset buf ++ p) _
        (omega (arith, length-append (take offset buf) p, length-take offset buf)))

-- From a state that holds full blocks only, `append_blocks` takes in any text.
pub append_blocks-Holds :
    (s : Md5State) (full : Bytes) (m : ℕ) (p : Bytes)
    → length full ≡ 64 * m
    → s.abcd ≡ full_blocks m initial full
    → length s.buf ≡ 64
    → Holds (append_blocks s p) (full ++ p)
unfolding append_blocks
append_blocks-Holds s full m p whole digested room =
    let n = length p / 64 in
    let front = take (64 * n) p in
    let rest = drop (64 * n) p in
    let len = length-take (64 * n) p in
    let abcd : full_blocks n s.abcd p ≡ full_blocks (m + n) initial (full ++ front) =
      full_blocks_read n s.abcd p (omega arith)
      ∙ rw digested (sym (full_blocks-append m n initial full front whole)) in
    let split : full ++ p ≡ (full ++ front) ++ rest =
      ap (◌++◌ full) (sym (take-append-drop (64 * n) p)) ∙ sym (append_assoc full front rest) in
    let small : length rest < 64 = omega (arith, length-drop (64 * n) p) in
    let long : length (full ++ front) ≡ 64 * (m + n) =
      omega (arith, length-append full front, len) in
    elim (Bool-cases (length rest == 0)) [
      | inl e ↦ rw e (
          let none_left = nil_of_length rest ((==_iff (length rest) 0).0 e) in
          record {
            full = full ++ front;
            left = [];
            blocks = m + n;
            splits = split ∙ ap (◌++◌ (full ++ front)) none_left;
            whole = long;
            partial = omega arith;
            digested = abcd;
            buffered = refl;
            room = room;
          })
      | inr e ↦ rw e (record {
        full = full ++ front;
        left = rest;
        blocks = m + n;
        splits = split;
        whole = long;
        partial = small;
        digested = abcd;
        buffered = take-copy_into s.buf 0 rest (length rest) (omega arith) (omega arith);
        room = length-copy_into s.buf 0 rest (omega arith) ∙ room;
      })
    ]
