-- ===== src/Reading/Sound/Steps.antt =====
-- The steps of a reading function, each with what follows it.
use gomaasapi.Prelude.{◌≡◌, ℕ, Bool, some, List, nat_eq, list_eq, ℤ}
use gomaasapi.Strings.{Text}
use gomaasapi.Value.{Value, Members}
use gomaasapi.Http.{Platform}
use gomaasapi.Schema.{
  any, string, boolean, force_int, force_uint, list, string_map, nil_or, FieldList,
}
use gomaasapi.Reading.{
  ◌>>=◌, at, Read, assert_string, assert_int, assert_uint, assert_bool, assert_map, assert_list,
  convert_to_string_slice, convert_to_string_map,
}
use gomaasapi.Reading.Sound.{
  asks, Checked, at-Shaped, NoPanic, NoPanic-bind, NoPanic-string, NoPanic-int, NoPanic-uint,
  NoPanic-bool, NoPanic-map, NoPanic-list, NoPanic-slice, NoPanic-slice_or_nil, NoPanic-string_map,
}

module _ (P : Platform) where
  open P use {Err, Float}

  -- The type assertions on the fields of a map that has been checked, before what follows them.
  module _ {fs : FieldList Float} {m : Members Float} (h : Checked fs m) {B : Type 0} where
    pub string_step :
        (key : Text) (f : Text → Read P B)
        → asks key fs ≡ some string
        → ((s : Text) → NoPanic P (f s))
        → NoPanic P (assert_string P (at key m) >>= f)
    string_step key f e k =
        NoPanic-bind P _ f (NoPanic-string P _ (at-Shaped key string fs m e h.shape)) k

    pub int_step :
        (key : Text) (f : ℤ → Read P B)
        → asks key fs ≡ some force_int
        → ((n : ℤ) → NoPanic P (f n))
        → NoPanic P (assert_int P (at key m) >>= f)
    int_step key f e k =
        NoPanic-bind P _ f (NoPanic-int P _ (at-Shaped key force_int fs m e h.shape)) k

    pub uint_step :
        (key : Text) (f : ℕ → Read P B)
        → asks key fs ≡ some force_uint
        → ((n : ℕ) → NoPanic P (f n))
        → NoPanic P (assert_uint P (at key m) >>= f)
    uint_step key f e k =
        NoPanic-bind P _ f (NoPanic-uint P _ (at-Shaped key force_uint fs m e h.shape)) k

    pub bool_step :
        (key : Text) (f : Bool → Read P B)
        → asks key fs ≡ some boolean
        → ((b : Bool) → NoPanic P (f b))
        → NoPanic P (assert_bool P (at key m) >>= f)
    bool_step key f e k =
        NoPanic-bind P _ f (NoPanic-bool P _ (at-Shaped key boolean fs m e h.shape)) k

    pub map_step :
        (key : Text) (f : Members Float → Read P B)
        → asks key fs ≡ some (string_map any)
        → ((n : Members Float) → NoPanic P (f n))
        → NoPanic P (assert_map P (at key m) >>= f)
    map_step key f e k = NoPanic-bind P _ f (NoPanic-map P any _ (at-Shaped key _ fs m e h.shape)) k

    pub list_step :
        (key : Text) (f : List (Value Float) → Read P B)
        → asks key fs ≡ some (list (string_map any))
        → ((l : List (Value Float)) → NoPanic P (f l))
        → NoPanic P (assert_list P (at key m) >>= f)
    list_step key f e k =
        NoPanic-bind P _ f (NoPanic-list P (string_map any) _ (at-Shaped key _ fs m e h.shape)) k

    pub slice_step :
        (key : Text) (f : List Text → Read P B)
        → asks key fs ≡ some (list string)
        → ((l : List Text) → NoPanic P (f l))
        → NoPanic P (convert_to_string_slice P (at key m) >>= f)
    slice_step key f e k = NoPanic-bind P _ f (NoPanic-slice P _ (at-Shaped key _ fs m e h.shape)) k

    pub slice_or_nil_step :
        (key : Text) (f : List Text → Read P B)
        → asks key fs ≡ some (nil_or (list string))
        → ((l : List Text) → NoPanic P (f l))
        → NoPanic P (convert_to_string_slice P (at key m) >>= f)
    slice_or_nil_step key f e k =
        NoPanic-bind P _ f (NoPanic-slice_or_nil P _ (at-Shaped key _ fs m e h.shape)) k

    pub string_map_step :
        (key : Text) (f : List (Text × Text) → Read P B)
        → asks key fs ≡ some (string_map string)
        → ((l : List (Text × Text)) → NoPanic P (f l))
        → NoPanic P (convert_to_string_map P (at key m) >>= f)
    string_map_step key f e k =
        NoPanic-bind P _ f (NoPanic-string_map P _ (at-Shaped key _ fs m e h.shape)) k
