-- ===== src/Json.antt =====
-- The JSON values that the program sends. The members of an object are in the order of the source.
use flx.Prelude.{ℕ, Bool, Bytes}

mutual
  pub data Json : Type 0 where
    json_null : Json
    json_bool : Bool → Json
    json_number : ℕ → Json
    json_string : Bytes → Json
    json_list : Items → Json
    json_object : Members → Json

  pub data Items : Type 0 where
    no_items : Items
    item : Json → Items → Items

  pub data Members : Type 0 where
    no_members : Members
    member : Bytes → Json → Members → Members
