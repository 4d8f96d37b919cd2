-- ===== src/Protocol/Json.antt =====
-- JSON values (packages/protocol/src/event-envelope.ts, `JsonValue`). A number is kept by its
-- printed form: no modelled code computes with one.
use axl_raja.Prelude.{String, Bool, List, [], ◌∷◌}

mutual
  pub data Json : Type 0 where
    null : Json
    bool : Bool → Json
    number : String → Json
    str : String → Json
    arr : Items → Json
    obj : Members → Json

  pub data Items : Type 0 where
    nil : Items
    cons : Json → Items → Items

  pub data Members : Type 0 where
    end : Members
    member : String → Json → Members → Members

abbrev pub items : Items → List Json
items nil = []
items (cons v vs) = v ∷ items vs

abbrev pub entries : Members → List (String × Json)
entries end = []
entries (member k v ms) = (k, v) ∷ entries ms
