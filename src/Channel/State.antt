-- ===== src/Channel/State.antt =====
-- The members of a Channel and the operations that change them. Backends and channels are numbered;
-- `X` is the context of a record.
use logme.Prelude.{
  ℕ, ◌==◌, Bool, true, false, ◌&&◌, ◌||◌, Option, none, some, List, [], ◌∷◌, ◌++◌, length,
  get_elem?, ltb, if◌then◌else◌,
}
use logme.Channel.Reentry.{contains}

pub record Channel (X : Type 0) : Type 0 where
  pub flags : ℕ
  pub level_filter : ℕ
  pub enabled : Bool
  pub linked : Bool
  pub backend_count : ℕ
  pub active : Bool
  pub link : Option (List ℕ)
  pub link_to : Option ℕ
  pub display_filter : Option (X → Bool × X)
  pub backends : List ℕ

-- `Freezed` of each backend, which several channels may share.
abbrev pub Freezed : Type 0
Freezed = ℕ → Bool

unfoldable pub freeze : ℕ → Freezed → Freezed
freeze backend f b = b == backend || f b

abbrev pub freeze_each : List ℕ → Freezed → Freezed
freeze_each [] f = f
freeze_each (b ∷ bs) f = freeze_each bs (freeze b f)

abbrev pub kept_before : ℕ → Option (List ℕ) → Option (List ℕ)
kept_before b none = none
kept_before b (some rest) = some (b ∷ rest)

-- The vector without the first occurrence, if there is one.
unfoldable pub erase : ℕ → List ℕ → Option (List ℕ)
erase backend [] = none
erase backend (b ∷ bs) =
    let rest = kept_before b (erase backend bs) in if b == backend then some bs else rest

module _ {X : Type 0} where
  unfoldable pub new_channel : ℕ → ℕ → Channel X
  new_channel flags level = record {
    flags = flags;
    level_filter = level;
    enabled = true;
    linked = false;
    backend_count = 0;
    active = false;
    link = none;
    link_to = none;
    display_filter = none;
    backends = [];
  }

  unfoldable pub update_active : Channel X → Channel X
  update_active c = record c { active = c.linked || (c.enabled && ltb 0 c.backend_count) }

  unfoldable pub add_link_id : List ℕ → Channel X → Channel X
  unfolding update_active
  add_link_id to c = update_active (record c { link = some to; linked = true })

  unfoldable pub add_link : Bool → Option ℕ → Channel X → Channel X
  unfolding update_active
  add_link true to c = c
  add_link false to c = update_active (record c { link_to = to; linked = true })

  unfoldable pub remove_link : Channel X → Channel X
  unfolding update_active
  remove_link c = update_active (record c { link = none; link_to = none; linked = false })

  unfoldable pub set_enabled : Bool → Channel X → Channel X
  unfolding update_active
  set_enabled enable c = update_active (record c { enabled = enable })

  unfoldable pub set_display_filter : Option (X → Bool × X) → Channel X → Channel X
  set_display_filter f c = record c { display_filter = f }

  unfoldable pub set_flags : ℕ → Channel X → Channel X
  set_flags flags c = record c { flags = flags }

  unfoldable pub set_filter_level : ℕ → Channel X → Channel X
  set_filter_level level c = record c { level_filter = level }

  abbrev pub with_backends : List ℕ → Channel X → Channel X
  with_backends bs c = record c { backends = bs; backend_count = length bs }

  unfoldable pub add_backend : Bool → ℕ → Channel X → Channel X
  unfolding update_active
  add_backend true backend c = c
  add_backend false backend c =
      if contains backend c.backends
      then c
      else update_active (with_backends (c.backends ++ backend ∷ []) c)

  unfoldable pub erased : ℕ → Option (List ℕ) → Channel X → Freezed → Bool × Channel X × Freezed
  unfolding update_active freeze
  erased backend none c f = (false, c, f)
  erased backend (some bs) c f = (true, update_active (with_backends bs c), freeze backend f)

  unfoldable pub remove_backend : ℕ → Channel X → Freezed → Bool × Channel X × Freezed
  unfolding erase erased
  remove_backend backend c f = erased backend (erase backend c.backends) c f

  unfoldable pub remove_backends : Channel X → Freezed → Channel X × Freezed
  unfolding update_active
  remove_backends c f = (update_active (with_backends [] c), freeze_each c.backends f)

  unfoldable pub get_backend : ℕ → Channel X → Option ℕ
  get_backend index c = get_elem? c.backends index
