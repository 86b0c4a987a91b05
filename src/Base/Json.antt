-- ===== src/Base/Json.antt =====
-- `serde_json::Value`, with the accessors that the daemon calls. `N` is the type of the numbers.
use Prim.Native.String.{String}
use mathlib.Core.Bool.{Bool}
use mathlib.Core.Option.{Option, none, some}
use mathlib.Core.List.{List, [], ◌∷◌}
use text.Mathlib.Text.{◌==◌}
use subspace_daemon.Base.Tests.{if◌then◌else◌}

mutual
  pub data Json (N : Type 0) : Type 0 where
    null : Json N
    bool : Bool → Json N
    num : N → Json N
    str : String → Json N
    arr : Items N → Json N
    obj : Fields N → Json N

  pub data Items (N : Type 0) : Type 0 where
    nil : Items N
    cons : Json N → Items N → Items N

  pub data Fields (N : Type 0) : Type 0 where
    end : Fields N
    field : String → Json N → Fields N → Fields N

module _ {N : Type 0} where
  unfoldable pub get_field : String → Fields N → Option (Json N)
  get_field k end = none
  get_field k (field j v fs) = if j == k then some v else get_field k fs

  -- `value.get(key)`: the member of an object, and nothing of any other value
  unfoldable pub get : String → Json N → Option (Json N)
  unfolding get_field
  get k (obj fs) = get_field k fs
  get k _ = none

  unfoldable pub as_str : Json N → Option String
  as_str (str s) = some s
  as_str _ = none

  unfoldable pub as_num : Json N → Option N
  as_num (num n) = some n
  as_num _ = none

  unfoldable pub items : Items N → List (Json N)
  items nil = []
  items (cons v vs) = v ∷ items vs

  unfoldable pub as_array : Json N → Option (List (Json N))
  unfolding items
  as_array (arr vs) = some (items vs)
  as_array _ = none
