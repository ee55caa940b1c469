-- ===== src/Common/Js.antt =====
-- JavaScript values as the services meet them: parsed JSON bodies, `Date`s, and the parts of the
-- language's own library that the code calls, which are a parameter.
use Prim.Native.Nat.{ℕ, ◌+◌, ◌*◌}
use Prim.Native.String.{String}
use mathlib.Core.Bool.{Bool, false}
use mathlib.Core.Option.{Option}
use nostr_storage_orchestrat.Common.Tests.{ltb, leb, ◌==◌, string_eq, if◌then◌else◌}
use nostr_storage_orchestrat.Common.Int.{ℤ}

-- A `number`. Every use in the code rejects what is no integer, so those are not told apart.
pub data Number : Type 0 where
  int : ℤ → Number
  not_integer : Number

mutual
  pub data Value : Type 0 where
    undefined : Value
    null : Value
    bool : Bool → Value
    num : Number → Value
    str : String → Value
    arr : Items → Value
    obj : Fields → Value

  pub data Fields : Type 0 where
    end : Fields
    field : String → Value → Fields → Fields

  pub data Items : Type 0 where
    nil : Items
    cons : Value → Items → Items

-- `o[k]` on the fields of an object; a missing key is `undefined`. JSON.parse keeps the last of two
-- equal keys, so an object's fields are taken to have distinct keys.
abbrev pub get_field : String → Fields → Value
get_field k end = undefined
get_field k (field j v rest) = if j == k then v else get_field k rest

-- `v[k]` for a key that is no array index or method name: `undefined` on all that is no object.
abbrev pub get : Value → String → Value
get (obj fs) k = get_field k fs
get _ k = undefined

-- A `Date`'s time value, counted in milliseconds from the earliest time that a `Date` can hold, which
-- is 8.64e15 ms before the epoch. Adding days is exact: every sum in range is an exact double.
pub data Date : Type 0 where
  invalid : Date
  at : ℕ → Date

abbrev pub epoch : ℕ
epoch = 8640000000000000

abbrev pub day_ms : ℕ
day_ms = 86400000

-- `new Date(n)`: a time past the range gives an Invalid Date.
abbrev pub date_at : ℕ → Date
date_at n = if leb n 17280000000000000 then at n else invalid

-- `new Date(d.getTime() + days * DAY_MS)`; an Invalid Date's time is NaN, and so is the sum.
abbrev pub add_days : Date → ℕ → Date
add_days invalid days = invalid
add_days (at t) days = date_at (t + days * day_ms)

-- `a.getTime() < b.getTime()`, false where either is NaN
abbrev pub before : Date → Date → Bool
before (at a) (at b) = ltb a b
before _ _ = false

-- `a.getTime() >= b.getTime()`, false where either is NaN
abbrev pub not_before : Date → Date → Bool
not_before (at a) (at b) = leb b a
not_before _ _ = false

-- What the code takes from the language's own library.
pub record Runtime : Type 0 where
  -- `BigInt(v)`, `none` where it throws
  pub big_int : Value → Option ℤ
  -- `new Date(s)`
  pub date_of : String → Date
  -- `s.toLowerCase()`
  pub lower_case : String → String
