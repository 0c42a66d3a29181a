-- ===== src/FileSystem/Levels.antt =====
-- `mk_dirs` makes the levels of a path and nothing else.
use ximg.Prelude.{
  ℕ, ◌+◌, ◌-◌, ◌<◌, true, false, [], ◌∷◌, ◌++◌, Bytes, length, take, get_or, ◌==◌, ◌≡◌, ◌≢◌, ◌⊎◌,
  refl, sym, subst, ap, ◌∙◌, arith, inl, inr, Bool-cases, take_all, length-append, append_assoc,
  append-nil, ==_iff,
}
use ximg.FileSystem.{System, from_second, make_level, make_at, mk_dirs_loop, with_slash, mk_dirs}
use ximg.Text.{str_lcpy}
use ximg.Text.Copy.{str_lcat-take}

-- The levels of `path`: what stands in front of one of its slashes, at least one character.
pub record IsLevel (path p : Bytes) : Type 0 where
  pub behind : Bytes
  pub splits : path ≡ p ++ (b'/' ∷ behind)
  pub some_text : 0 < length p

-- A directory that is made is there, and what was there stays.
pub record IsMaking {W : Type 0} (sys : System W) : Type 0 where
  pub made : (w : W) (p : Bytes) → (sys.mkdir w p).1 ≡ true → sys.access (sys.mkdir w p).0 p ≡ true
  pub stays : (w : W) (p q : Bytes) → sys.access w q ≡ true → sys.access (sys.mkdir w p).0 q ≡ true

-- A path that leads somewhere by a directory that is made, and did not before, is of `alias`: with it, such
-- as `a/` and `a/.` are for `a`, the places of a directory are told apart from other ones.
pub record IsLocal {W : Type 0} (sys : System W) (alias : Bytes → Bytes → Type 0) : Type 0 where
  pub only :
      (w : W) (p q : Bytes)
      → sys.access (sys.mkdir w p).0 q ≡ true
      → (sys.access w q ≡ true) ⊎ alias p q

-- What a run of `mk_dirs` on `path`, from `w` to `after`, leaves.
pub record MakesLevels {W : Type 0} (sys : System W) (w after : W) (path : Bytes) : Type 0 where
  pub there : (p : Bytes) → IsLevel path p → sys.access after p ≡ true
  pub stays : (q : Bytes) → sys.access w q ≡ true → sys.access after q ≡ true

-- A level of `path` of which `q` is an alias.
abbrev pub IsAliasOfLevel : (Bytes → Bytes → Type 0) → Bytes → Bytes → Type 0
IsAliasOfLevel alias path q = (p : Bytes) × IsLevel path p × alias p q

-- A path of at most 254 characters without a slash at its end gets one.
with_slash-append :
    (dir : Bytes)
    → 0 < length dir
    → length dir < 255
    → get_or dir (length dir - 1) 0 ≢ b'/'
    → with_slash dir ≡ dir ++ (b'/' ∷ [])
unfolding with_slash str_lcpy
with_slash-append dir some_text short open_end =
    let whole : take 255 dir ≡ dir = take_all 255 dir (omega arith) in
    let no : (get_or dir (length dir - 1) 0 == b'/') ≡ false = ground arith in
    rw (whole, no)
      (str_lcat-take dir (b'/' ∷ []) 256 (omega arith) (omega arith)
        ∙ ap (◌++◌ dir) (take_all (256 - (length dir + 1)) (b'/' ∷ []) (omega arith)))

slash_in : (mid behind : Bytes) → mid ++ (b'/' ∷ behind) ≢ []
slash_in [] behind e = cc
slash_in (c ∷ mid) behind e = cc

module _ {W : Type 0} (sys : System W) (ok : IsMaking sys) where
  make_level_made :
      (w : W) (p : Bytes)
      → (make_level sys w p).1 ≡ true
      → sys.access (make_level sys w p).0 p ≡ true
  unfolding make_level
  make_level_made w p h = elim (Bool-cases (sys.access w p)) [
    | inl e ↦ rw e e
    | inr e ↦ rw e (ok.made w p (rw e at h))
  ]

  make_level_stays :
      (w : W) (p q : Bytes) → sys.access w q ≡ true → sys.access (make_level sys w p).0 q ≡ true
  unfolding make_level
  make_level_stays w p q h = elim (Bool-cases (sys.access w p)) [
    | inl e ↦ rw e h
    | inr e ↦ rw e (ok.stays w p q h)
  ]

  make_at_stays :
      (w : W) (front : Bytes) (c : ℕ) (q : Bytes)
      → sys.access w q ≡ true
      → sys.access (make_at sys w front c).0 q ≡ true
  unfolding make_at
  make_at_stays w front c q h = elim (Bool-cases (c == b'/')) [
    | inl e ↦ rw e (make_level_stays w front q h)
    | inr e ↦ rw e h
  ]

  make_at_made :
      (w : W) (front : Bytes) (c : ℕ)
      → c ≡ b'/'
      → (make_at sys w front c).1 ≡ true
      → sys.access (make_at sys w front c).0 front ≡ true
  unfolding make_at
  make_at_made w front c slash h =
      let yes : (c == b'/') ≡ true = (==_iff c b'/').1 slash in
      rw yes (make_level_made w front (rw yes at h))

  mk_dirs_loop_stays :
      (w : W) (front rest q : Bytes)
      → sys.access w q ≡ true
      → sys.access (mk_dirs_loop sys w front rest).0 q ≡ true
  unfolding mk_dirs_loop
  mk_dirs_loop_stays w front [] q h = h
  mk_dirs_loop_stays w front (c ∷ rest) q h =
      let now = make_at_stays w front c q h in
      elim (Bool-cases (make_at sys w front c).1) [
        | inl e ↦ rw e (mk_dirs_loop_stays (make_at sys w front c).0 (front ++ (c ∷ [])) rest q now)
        | inr e ↦ rw e now
      ]

  mk_dirs_loop_made :
      (w : W) (front rest mid behind : Bytes)
      → (mk_dirs_loop sys w front rest).1 ≡ true
      → rest ≡ mid ++ (b'/' ∷ behind)
      → sys.access (mk_dirs_loop sys w front rest).0 (front ++ mid) ≡ true
  unfolding mk_dirs_loop
  mk_dirs_loop_made w front [] mid behind done e = elim (slash_in mid behind (sym e)) [ ]
  mk_dirs_loop_made w front (c ∷ rest) [] behind done e =
      let slash : c ≡ b'/' = cc in
      let whole : front ++ [] ≡ front = append-nil front in
      elim (Bool-cases (make_at sys w front c).1) [
        | inl level ↦
            rw (level, whole)
              (mk_dirs_loop_stays (make_at sys w front c).0 (front ++ (c ∷ [])) rest front
                (make_at_made w front c slash level))
        | inr failed ↦ cc (rw failed at done)
      ]
  mk_dirs_loop_made w front (c ∷ rest) (d ∷ mid) behind done e =
      let same : c ≡ d = cc in
      let longer : (front ++ (c ∷ [])) ++ mid ≡ front ++ (d ∷ mid) =
        append_assoc front (c ∷ []) mid ∙ ap (λ x. front ++ (x ∷ mid)) same in
      elim (Bool-cases (make_at sys w front c).1) [
        | inl level ↦ rw level (
            subst
              (λ p.
                sys.access (mk_dirs_loop sys (make_at sys w front c).0 (front ++ (c ∷ [])) rest).0 p
                ≡ true)
              longer
              (mk_dirs_loop_made (make_at sys w front c).0 (front ++ (c ∷ [])) rest mid behind
                (rw level at done) cc))
        | inr failed ↦ cc (rw failed at done)
      ]

  from_second_stays :
      (w : W) (path q : Bytes)
      → sys.access w q ≡ true
      → sys.access (from_second sys w path).0 q ≡ true
  from_second_stays w [] q h = h
  from_second_stays w (c ∷ rest) q h = mk_dirs_loop_stays w (c ∷ []) rest q h

  pub mk_dirs_stays :
      (w : W) (dir q : Bytes) → sys.access w q ≡ true → sys.access (mk_dirs sys w dir).0 q ≡ true
  unfolding mk_dirs
  mk_dirs_stays w dir q h = from_second_stays w (with_slash dir) q h

  first_level_there :
      (w : W) (c : ℕ) (rest p : Bytes)
      → IsLevel (c ∷ rest) p
      → (mk_dirs_loop sys w (c ∷ []) rest).1 ≡ true
      → sys.access (mk_dirs_loop sys w (c ∷ []) rest).0 p ≡ true
  first_level_there w c rest [] level done = let some_text : 0 < 0 = level.some_text in ground arith
  first_level_there w c rest (d ∷ mid) level done =
      let splits = level.splits in
      let same : c ≡ d = cc in
      subst (λ x. sys.access (mk_dirs_loop sys w (c ∷ []) rest).0 (x ∷ mid) ≡ true) same
        (mk_dirs_loop_made w (c ∷ []) rest mid level.behind done cc)

  from_second_lem :
      (w : W) (path : Bytes)
      → (from_second sys w path).1 ≡ true
      → MakesLevels sys w (from_second sys w path).0 path
  from_second_lem w [] done = record {
    there = λ p level. elim (slash_in p level.behind (sym level.splits)) [ ];
    stays = λ q h. h;
  }
  from_second_lem w (c ∷ rest) done = record {
    there = λ p level. first_level_there w c rest p level done;
    stays = mk_dirs_loop_stays w (c ∷ []) rest;
  }

  -- What a success of `mk_dirs` says of the text that it walks over.
  pub mk_dirs-with_slash :
      (w : W) (dir : Bytes)
      → (mk_dirs sys w dir).1 ≡ true
      → MakesLevels sys w (mk_dirs sys w dir).0 (with_slash dir)
  unfolding mk_dirs
  mk_dirs-with_slash w dir done = from_second_lem w (with_slash dir) done

module _ {W : Type 0} (sys : System W) (alias : Bytes → Bytes → Type 0)
    (local : IsLocal sys alias) where
  make_level_only :
      (w : W) (p q : Bytes)
      → sys.access (make_level sys w p).0 q ≡ true
      → (sys.access w q ≡ true) ⊎ alias p q
  unfolding make_level
  make_level_only w p q h = elim (Bool-cases (sys.access w p)) [
    | inl e ↦ inl (rw e at h)
    | inr e ↦ local.only w p q (rw e at h)
  ]

  make_at_only :
      (w : W) (front : Bytes) (c : ℕ) (q : Bytes)
      → sys.access (make_at sys w front c).0 q ≡ true
      → (sys.access w q ≡ true) ⊎ (alias front q × (c ≡ b'/'))
  unfolding make_at
  make_at_only w front c q h = elim (Bool-cases (c == b'/')) [
    | inl e ↦ elim (make_level_only w front q (rw e at h)) [
      | inl before ↦ inl before
      | inr new ↦ inr (new, (==_iff c b'/').0 e)
    ]
    | inr e ↦ inl (rw e at h)
  ]

  make_at-IsAliasOfLevel :
      (w : W) (front : Bytes) (c : ℕ) (rest q : Bytes)
      → 0 < length front
      → sys.access (make_at sys w front c).0 q ≡ true
      → (sys.access w q ≡ true) ⊎ IsAliasOfLevel alias (front ++ (c ∷ rest)) q
  make_at-IsAliasOfLevel w front c rest q some_text h = elim (make_at_only w front c q h) [
    | inl before ↦ inl before
    | inr (new, slash) ↦
        inr (front, rw slash (record { behind = rest; splits = refl; some_text = some_text }), new)
  ]

  mk_dirs_loop_only :
      (w : W) (front rest q : Bytes)
      → 0 < length front
      → sys.access (mk_dirs_loop sys w front rest).0 q ≡ true
      → (sys.access w q ≡ true) ⊎ IsAliasOfLevel alias (front ++ rest) q
  unfolding mk_dirs_loop
  mk_dirs_loop_only w front [] q some_text h = inl h
  mk_dirs_loop_only w front (c ∷ rest) q some_text h =
      let here = make_at-IsAliasOfLevel w front c rest q some_text in
      elim (Bool-cases (make_at sys w front c).1) [
        | inl e ↦
            let longer : 0 < length (front ++ (c ∷ [])) =
              omega (arith, length-append front (c ∷ [])) in
            elim (mk_dirs_loop_only (make_at sys w front c).0 (front ++ (c ∷ [])) rest q longer
              (rw e at h)) [
                | inl before ↦ here before
                | inr level ↦
                    inr (
                      subst (λ s. IsAliasOfLevel alias s q) (append_assoc front (c ∷ []) rest)
                        level)
              ]
        | inr e ↦ here (rw e at h)
      ]

  from_second_only :
      (w : W) (path q : Bytes)
      → sys.access (from_second sys w path).0 q ≡ true
      → (sys.access w q ≡ true) ⊎ IsAliasOfLevel alias path q
  from_second_only w [] q h = inl h
  from_second_only w (c ∷ rest) q h = mk_dirs_loop_only w (c ∷ []) rest q (omega arith) h

-- For a path of 1 to 254 characters without a slash at its end: when `mk_dirs` returns 1, all the levels of
-- the path are there, the path itself with them; what was there before is there; and whatever was not
-- there and now is, is so by a directory that was made for one of the levels: it is an alias of it, in
-- the sense in which the call of the system makes a path and its aliases only.
pub mk_dirs-MakesLevels :
    {W : Type 0} (sys : System W) (alias : Bytes → Bytes → Type 0) (ok : IsMaking sys)
    (local : IsLocal sys alias) (w : W) (dir : Bytes)
    → 0 < length dir
    → length dir < 255
    → get_or dir (length dir - 1) 0 ≢ b'/'
    → (mk_dirs sys w dir).1 ≡ true
    → MakesLevels sys w (mk_dirs sys w dir).0 (dir ++ (b'/' ∷ []))
      × ((q : Bytes)
          → sys.access (mk_dirs sys w dir).0 q ≡ true
          → (sys.access w q ≡ true) ⊎ IsAliasOfLevel alias (dir ++ (b'/' ∷ [])) q)
unfolding mk_dirs
mk_dirs-MakesLevels sys alias ok local w dir some_text short open_end done =
    let path = with_slash-append dir some_text short open_end in
    rw path (
      from_second_lem sys ok w (dir ++ (b'/' ∷ [])) (rw path at done),
      λ q h. from_second_only sys alias local w (dir ++ (b'/' ∷ [])) q h,
    )
