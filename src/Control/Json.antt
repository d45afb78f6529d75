-- ===== src/Control/Json.antt =====
-- The JSON library that server/control.h and server/main.cpp use, as they use it: its operations, and what is
-- documented of them.
use monidroid.Base.{ℕ, Bool, true, false, Option, none, some, List, [], ◌∷◌, ◌≡◌, if◌then◌else◌}
use monidroid.Protocol.{bytes_eq}

-- The operations on values `J`. `at` is `contains` and then `[]`: `none` is a key that is not there, or a value
-- that is no object. `get_string`, `get_bool`: `none` is the exception for a value of another type. `value`
-- takes a default. `object` is what assignments to the keys of a new value make, in their order. `dump` is
-- `none` where it throws; `utf8` says whether the bytes of a text are UTF-8.
pub record JsonLibrary (J : Type 0) : Type 0 where
  pub null : J
  pub string : List ℕ → J
  pub boolean : Bool → J
  pub number : ℕ → J
  pub array : List J → J
  pub object : List (List ℕ × J) → J
  pub at : J → List ℕ → Option J
  pub get_string : J → Option (List ℕ)
  pub get_bool : J → Option Bool
  pub value : J → List ℕ → J → J
  pub dump : J → Option (List ℕ)
  pub utf8 : List ℕ → Bool

-- The field of a name, and whether the names of fields differ.
abbrev pub field {ℓ} : {J : Type ℓ} → List ℕ → List (List ℕ × J) → Option J
field k [] = none
field k ((k', v) ∷ fs) = if bytes_eq k' k then some v else field k fs

abbrev pub differ {ℓ} : {J : Type ℓ} → List (List ℕ × J) → Bool
differ [] = true
differ ((k, v) ∷ fs) = elim (field k fs) [ none ↦ differ fs | some _ ↦ false ]

-- What is documented of the operations: an object made of different keys has them, `value` of an object is the
-- value of the key or the default, and what is made of a string or a Boolean gives it back. A value
-- with a text in it that is not UTF-8 cannot be dumped.
pub record IsJsonLibrary (J : Type 0) (json : JsonLibrary J) : Type 0 where
  pub at-object :
      (fs : List (List ℕ × J)) (k : List ℕ)
      → differ fs ≡ true
      → json.at (json.object fs) k ≡ field k fs
  pub at-null : (k : List ℕ) → json.at json.null k ≡ none
  pub value-at :
      (v d w : J) (k k' : List ℕ)
      → json.at v k' ≡ some w
      → json.value v k d ≡ elim (json.at v k) [ some x ↦ x | none ↦ d ]
  pub get_string-string : (t : List ℕ) → json.get_string (json.string t) ≡ some t
  pub get_bool-boolean : (b : Bool) → json.get_bool (json.boolean b) ≡ some b
  pub dump-string : (t : List ℕ) → json.utf8 t ≡ false → json.dump (json.string t) ≡ none
  pub dump-object :
      (fs : List (List ℕ × J)) (k : List ℕ) (v : J)
      → differ fs ≡ true
      → field k fs ≡ some v
      → json.dump v ≡ none
      → json.dump (json.object fs) ≡ none
