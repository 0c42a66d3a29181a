-- ===== src/Cache/Text.antt =====
-- `find_cache` after `set_cache`: a text comes back cut to seven characters.
use ximg.Prelude.{
  ℕ, true, ◌∷◌, Bytes, take, Option, none, some, ◌≡◌, ◌≢◌, refl, sym, subst, ◌∙◌, Option-cases, inl,
  inr,
}
use ximg.Cache.{
  Memcached, MemcachedReturn, success, notfound, connection_failure, other, is_success, value_of,
  text_of, find_cache, set_cache,
}
use ximg.Db.Refines.{value_of-view, is_success_inv}
use ximg.Db.Contract.{View, IsMemcached, IsReplied}
use ximg.Text.{str_lcpy}

value_of_inv :
    (rc : MemcachedReturn) (o : Option Bytes) (c : ℕ) (cs : Bytes)
    → value_of rc o ≡ some (c ∷ cs)
    → (is_success rc ≡ true) × (o ≡ some (c ∷ cs))
value_of_inv success none c cs e = cc
value_of_inv success (some v) c cs e = (refl, e)
value_of_inv notfound o c cs e = cc
value_of_inv connection_failure o c cs e = cc
value_of_inv other o c cs e = cc

module _ {W : Type 0} (memc : Memcached W) (view : View W) (ok : IsMemcached memc view)
    (replied : IsReplied memc view)
    (steady : (w : W) (key : Bytes)
      → view w key ≢ none
      → value_of (memc.memcached_get w key).1 (memc.memcached_get w key).2 ≢ none) where
  get_found :
      (w : W) (key : Bytes) (c : ℕ) (cs : Bytes)
      → view w key ≡ some (c ∷ cs)
      → (is_success (memc.memcached_get w key).1 ≡ true)
        × ((memc.memcached_get w key).2 ≡ some (c ∷ cs))
  get_found w key c cs here =
      let r = memc.memcached_get w key in
      elim (Option-cases (value_of r.1 r.2)) [
        | inl gone ↦ absurd (steady w key (subst (λ o. o ≢ none) (sym here) (λ e. cc)) gone)
        | inr (v, e) ↦
            value_of_inv r.1 r.2 c cs (e ∙ sym (value_of-view memc view ok w key v e) ∙ here)
      ]

  -- Where the server keeps what it takes and gives what it has, and a success of a write is its reply, which a
  -- connection with NOREPLY does not wait for: a text that `set_cache` has stored, with no
  -- NUL in it and not empty, is found by `find_cache`, but only its first seven characters, since the
  -- size of the copy is that of a pointer.
  pub find_cache-set_cache :
      (w : W) (key : Bytes) (c : ℕ) (cs : Bytes)
      → text_of (c ∷ cs) ≡ c ∷ cs
      → (set_cache (some memc) w key (c ∷ cs)).1 ≡ true
      → (w' : W) × (find_cache (some memc) (set_cache (some memc) w key (c ∷ cs)).0 key
          ≡ some (w', some (take 7 (c ∷ cs))))
  unfolding set_cache find_cache str_lcpy
  find_cache-set_cache w key c cs no_nul done =
      let stored = memc.memcached_set w key (c ∷ cs) in
      let here : view stored.0 key ≡ some (c ∷ cs) =
        replied.set_done w key (c ∷ cs) (is_success_inv stored.1 (rw no_nul at done)) in
      let (got, value) = get_found stored.0 key c cs here in
      ((memc.memcached_get stored.0 key).0, rw no_nul (rw (got, value) (rw no_nul refl)))
