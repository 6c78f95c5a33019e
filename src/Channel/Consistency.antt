-- ===== src/Channel/Consistency.antt =====
-- What holds of a channel after any of its operations.
use logme.Prelude.{
  ℕ, ◌≡◌, refl, sym, ap, subst, Bool, true, false, ◌&&◌, ◌||◌, Option, none, some, List, [], ◌∷◌,
  ◌++◌, length, ltb, Bool-cases, inl, inr, arith,
}
use logme.Channel.Reentry.{contains}
use logme.Channel.Distinct.{Distinct, Distinct-snoc, Erased, erase-Erased}
use logme.Channel.State.{
  Channel, Freezed, new_channel, update_active, add_link_id, add_link, remove_link, set_enabled,
  set_display_filter, set_flags, set_filter_level, with_backends, add_backend, erase, erased,
  remove_backend, remove_backends,
}

abbrev is_some {ℓ} : {A : Type ℓ} → Option A → Bool
is_some none = false
is_some (some x) = true

module _ {X : Type 0} where
  -- The flags say what they stand for, and no backend is in the channel twice.
  pub record Consistent (c : Channel X) : Type 0 where
    pub count : c.backend_count ≡ length c.backends
    pub active : c.active ≡ (c.linked || (c.enabled && ltb 0 (length c.backends)))
    pub linked : c.linked ≡ (is_some c.link || is_some c.link_to)
    pub distinct : Distinct c.backends

  -- The operations of a channel, with the freezing of its backends. Links to objects are not null.
  pub data Operation : Channel X × Freezed → Channel X × Freezed → Type 0 where
    link_id : (to : List ℕ) (c : Channel X) (f : Freezed) → Operation (c, f) (add_link_id to c, f)
    link_object :
        (off : Bool) (to : ℕ) (c : Channel X) (f : Freezed)
        → Operation (c, f) (add_link off (some to) c, f)
    unlink : (c : Channel X) (f : Freezed) → Operation (c, f) (remove_link c, f)
    enable : (on : Bool) (c : Channel X) (f : Freezed) → Operation (c, f) (set_enabled on c, f)
    filter :
        (g : Option (X → Bool × X)) (c : Channel X) (f : Freezed)
        → Operation (c, f) (set_display_filter g c, f)
    new_flags : (v : ℕ) (c : Channel X) (f : Freezed) → Operation (c, f) (set_flags v c, f)
    new_level : (v : ℕ) (c : Channel X) (f : Freezed) → Operation (c, f) (set_filter_level v c, f)
    add :
        (off : Bool) (b : ℕ) (c : Channel X) (f : Freezed)
        → Operation (c, f) (add_backend off b c, f)
    remove :
        (b : ℕ) (c : Channel X) (f : Freezed)
        → Operation (c, f) ((remove_backend b c f).1, (remove_backend b c f).2)
    remove_all : (c : Channel X) (f : Freezed) → Operation (c, f) (remove_backends c f)

  pub data History (s : Channel X × Freezed) : Channel X × Freezed → Type 0 where
    begin : History s s
    after : {t u : Channel X × Freezed} → History s t → Operation t u → History s u

  known : (b : ℕ) (c : Channel X) → contains b c.backends ≡ true → add_backend false b c ≡ c
  unfolding add_backend
  known b c h = ground arith

  fresh :
      (b : ℕ) (c : Channel X)
      → contains b c.backends ≡ false
      → add_backend false b c ≡ update_active (with_backends (c.backends ++ b ∷ []) c)
  unfolding add_backend
  fresh b c h = ground arith

  add-Consistent :
      (off : Bool) (b : ℕ) (c : Channel X) → Consistent c → Consistent (add_backend off b c)
  unfolding add_backend update_active
  add-Consistent true b c h = h
  add-Consistent false b c h = elim (Bool-cases (contains b c.backends)) [
    | inl there ↦ subst Consistent (sym (known b c there)) h
    | inr new ↦ subst Consistent (sym (fresh b c new)) (record {
      count = refl;
      active = refl;
      linked = h.linked;
      distinct = Distinct-snoc b c.backends h.distinct new;
    })
  ]

  erased-Consistent :
      (b : ℕ) (c : Channel X) (f : Freezed) (o : Option (List ℕ))
      → Erased b c.backends o
      → Consistent c
      → Consistent (erased b o c f).1
  unfolding erased update_active
  erased-Consistent b c f none e h = h
  erased-Consistent b c f (some r) (_, _, apart) h = record {
    count = refl;
    active = refl;
    linked = h.linked;
    distinct = (apart h.distinct).0;
  }

  Operation-Consistent :
      {s t : Channel X × Freezed} → Operation s t → Consistent s.0 → Consistent t.0
  unfolding add_link_id add_link remove_link set_enabled set_display_filter set_flags
      set_filter_level update_active remove_backend remove_backends
  Operation-Consistent (link_id to c f) h = record {
    count = h.count;
    active = refl;
    linked = refl;
    distinct = h.distinct;
  }
  Operation-Consistent (link_object true to c f) h = h
  Operation-Consistent (link_object false to c f) h = record {
    count = h.count;
    active = refl;
    linked = ground arith;
    distinct = h.distinct;
  }
  Operation-Consistent (unlink c f) h = record {
    count = h.count;
    active = ap (λ n. c.enabled && ltb 0 n) h.count;
    linked = refl;
    distinct = h.distinct;
  }
  Operation-Consistent (enable on c f) h = record {
    count = h.count;
    active = ap (λ n. c.linked || (on && ltb 0 n)) h.count;
    linked = h.linked;
    distinct = h.distinct;
  }
  Operation-Consistent (filter g c f) h = record {
    count = h.count;
    active = h.active;
    linked = h.linked;
    distinct = h.distinct;
  }
  Operation-Consistent (new_flags v c f) h = record {
    count = h.count;
    active = h.active;
    linked = h.linked;
    distinct = h.distinct;
  }
  Operation-Consistent (new_level v c f) h = record {
    count = h.count;
    active = h.active;
    linked = h.linked;
    distinct = h.distinct;
  }
  Operation-Consistent (add off b c f) h = add-Consistent off b c h
  Operation-Consistent (remove b c f) h =
      erased-Consistent b c f (erase b c.backends) (erase-Erased b c.backends) h
  Operation-Consistent (remove_all c f) h = record {
    count = refl;
    active = refl;
    linked = h.linked;
    distinct = tt;
  }

  new-Consistent : (flags level : ℕ) → Consistent (new_channel flags level)
  unfolding new_channel
  new-Consistent flags level = record { count = refl; active = refl; linked = refl; distinct = tt }

  History-kept : {s t : Channel X × Freezed} → History s t → Consistent s.0 → Consistent t.0
  History-kept begin h = h
  History-kept (after r o) h = Operation-Consistent o (History-kept r h)

  -- After any sequence of operations on a new channel, its count of backends is exact, no backend is
  -- in it twice, it is linked exactly where one of the two links is set, and it is active exactly
  -- where it is linked, or enabled with a backend.
  pub History-Consistent :
      {f : Freezed} {t : Channel X × Freezed} (flags level : ℕ)
      → History (new_channel flags level, f) t
      → Consistent t.0
  History-Consistent flags level r = History-kept r (new-Consistent flags level)
