-- ===== src/Js/Codecs.antt =====
-- JSON.parse and JSON.stringify, as the program relies on them. No part of the program looks into
-- a text that it stores and reads back, so the type of these texts is a parameter too.
use Prim.Native.Char.{code}
use Prim.Native.String.{String}
use restaurant_engine.Prelude.{Bool, true, false, ◌&&◌, Option, none, some, ◌≡◌, refl, leb}
use restaurant_engine.Js.Numbers.{is_safe_integer}
use restaurant_engine.Js.Values.{
  Json, null, bool, num, str, arr, obj, Items, nil, cons, Fields, end, field, lookup,
}

-- A key that starts with a lower-case letter: no array index, and not `__proto__`.
abbrev pub is_name : String → Bool
is_name String.[] = false
is_name (String.◌∷◌ c s) = leb b'a' (code c) && leb (code c) b'z'

-- A value that survives a print: its numbers are safe integers, and the keys of an object are
-- distinct names.
abbrev mutual
  pub IsStorable : Json → Type 0
  IsStorable null = Unit
  IsStorable (bool b) = Unit
  IsStorable (num n) = is_safe_integer n ≡ true
  IsStorable (str s) = Unit
  IsStorable (arr vs) = AreStorable vs
  IsStorable (obj fs) = FieldsAreStorable fs

  pub AreStorable : Items → Type 0
  AreStorable nil = Unit
  AreStorable (cons v vs) = IsStorable v × AreStorable vs

  pub FieldsAreStorable : Fields → Type 0
  FieldsAreStorable end = Unit
  FieldsAreStorable (field k v fs) =
      (is_name k ≡ true) × (lookup k fs ≡ none) × IsStorable v × FieldsAreStorable fs

-- `parse` is `none` where JSON.parse throws.
pub record Codec : Type 1 where
  pub Raw : Type 0
  pub parse : Raw → Option Json
  pub stringify : Json → Raw
  pub parse-stringify : (v : Json) → IsStorable v → parse (stringify v) ≡ some v

-- The codec whose texts are values, or the one malformed text.
abbrev pub plain_codec : Codec
plain_codec = record {
  Raw = Option Json;
  parse = λ raw. raw;
  stringify = λ v. some v;
  parse-stringify = λ v h. refl;
}
