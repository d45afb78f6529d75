-- ===== src/Runs/Documents.antt =====
-- JSON values with the operations that the control interface uses.
use monidroid.Base.{
  ℕ, ◌≡◌, refl, ap, ltb, ◌&&◌, true, false, Bool-cases, inl, inr, Bool, Option, none, some, List,
  [], ◌∷◌, if◌then◌else◌,
}
use monidroid.Protocol.{bytes_eq}
use monidroid.Control.Json.{JsonLibrary, IsJsonLibrary, field}

mutual
  pub data Document : Type 0 where
    null : Document
    boolean : Bool → Document
    number : ℕ → Document
    text : List ℕ → Document
    array : Elements → Document
    object : Fields → Document

  pub data Elements : Type 0 where
    nil : Elements
    element : Document → Elements → Elements

  pub data Fields : Type 0 where
    no_field : Fields
    one_field : List ℕ → Document → Fields → Fields

abbrev elements_of : List Document → Elements
elements_of [] = nil
elements_of (d ∷ ds) = element d (elements_of ds)

abbrev fields_of : List (List ℕ × Document) → Fields
fields_of [] = no_field
fields_of ((k, d) ∷ ds) = one_field k d (fields_of ds)

abbrev get_field : List ℕ → Fields → Option Document
get_field k no_field = none
get_field k (one_field k' d fs) = if bytes_eq k' k then some d else get_field k fs

abbrev get : Document → List ℕ → Option Document
get (object fs) k = get_field k fs
get _ k = none

abbrev text_of : Document → Option (List ℕ)
text_of (text t) = some t
text_of _ = none

abbrev boolean_of : Document → Option Bool
boolean_of (boolean b) = some b
boolean_of _ = none

-- A text of ASCII, and a document that has no other.
abbrev ascii : List ℕ → Bool
ascii [] = true
ascii (c ∷ cs) = ltb c 128 && ascii cs

abbrev mutual
  is_ascii : Document → Bool
  is_ascii (text t) = ascii t
  is_ascii (array es) = all_ascii es
  is_ascii (object fs) = fields_ascii fs
  is_ascii _ = true

  all_ascii : Elements → Bool
  all_ascii nil = true
  all_ascii (element d es) = is_ascii d && all_ascii es

  fields_ascii : Fields → Bool
  fields_ascii no_field = true
  fields_ascii (one_field k d fs) = is_ascii d && fields_ascii fs

abbrev dumped : Document → Option (List ℕ)
dumped d = if is_ascii d then some [] else none

abbrev pub documents : JsonLibrary Document
documents = record {
  null = null;
  string = text;
  boolean = boolean;
  number = number;
  array = λ ds. array (elements_of ds);
  object = λ fs. object (fields_of fs);
  at = get;
  get_string = text_of;
  get_bool = boolean_of;
  value = λ v k d. elim (get v k) [ some x ↦ x | none ↦ d ];
  dump = dumped;
  utf8 = ascii;
}

get_field-fields_of :
    (fs : List (List ℕ × Document)) (k : List ℕ) → get_field k (fields_of fs) ≡ field k fs
get_field-fields_of [] k = refl
get_field-fields_of ((k', d) ∷ fs) k =
    ap (λ o. if bytes_eq k' k then some d else o) (get_field-fields_of fs k)

bad : (d : Document) → dumped d ≡ none → is_ascii d ≡ false
bad d h = elim (Bool-cases (is_ascii d)) [
  | inl e ↦ let k : dumped d ≡ some [] = rw e refl in cc (k, h)
  | inr e ↦ e
]

fields_bad :
    (fs : List (List ℕ × Document)) (k : List ℕ) (v : Document)
    → field k fs ≡ some v
    → is_ascii v ≡ false
    → fields_ascii (fields_of fs) ≡ false
fields_bad [] k v e h = cc e
fields_bad ((k', d) ∷ fs) k v e h = elim (Bool-cases (bytes_eq k' k)) [
  | inl q ↦ let w : d ≡ v = the_value d v (rw q at e) in rw (w, h) refl
  | inr q ↦ rw (fields_bad fs k v (rw q at e) h) (and_false (is_ascii d))
]
  where
    the_value : (x y : Document) → ◌≡◌ {A = Option Document} (some x) (some y) → x ≡ y
    the_value x y p = cc p

    and_false : (b : Bool) → b && false ≡ false
    and_false true = refl
    and_false false = refl

pub documents-IsJsonLibrary : IsJsonLibrary Document documents
documents-IsJsonLibrary = record {
  at-object = λ fs k _. get_field-fields_of fs k;
  at-null = λ k. refl;
  value-at = λ v d w k k' _. refl;
  get_string-string = λ t. refl;
  get_bool-boolean = λ b. refl;
  dump-string = λ t h. rw h refl;
  dump-object = λ fs k v _ e h. rw (fields_bad fs k v e (bad v h)) refl;
}
