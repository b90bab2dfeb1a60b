-- ===== src/Json.antt =====
-- JSON trees, as `encoding/json` decodes them into `any` with `UseNumber`: a number is its literal. An
-- object is a Go map, given by its fields in some order.
use planless.Prelude.{String, Bool, Option, none, some, List, [], ◌∷◌, if◌then◌else◌, ◌==◌}

mutual
  pub data Json : Type 0 where
    null : Json
    boolean : Bool → Json
    number : String → Json
    text : String → Json
    array : Items → Json
    object : Fields → Json

  pub data Items : Type 0 where
    nil : Items
    cons : Json → Items → Items

  pub data Fields : Type 0 where
    end : Fields
    field : String → Json → Fields → Fields

-- `m[k]`; `none` is a missing key.
abbrev pub get : String → Fields → Option Json
get k end = none
get k (field l v rest) = if l == k then some v else get k rest

abbrev pub keys : Fields → List String
keys end = []
keys (field k v rest) = k ∷ keys rest

abbrev pub items : Items → List Json
items nil = []
items (cons v rest) = v ∷ items rest
