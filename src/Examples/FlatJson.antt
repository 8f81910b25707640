-- ===== src/Examples/FlatJson.antt =====
-- A stand-in for the JSON packages: a body is a table from paths to texts, each with its length.
use aistudio_gemini_gateway.Base.{
  ℕ, zero, suc, ◌≡◌, ◌∙◌, refl, ap, subst, sym, true, false, [], ◌∷◌, ◌++◌, Text, text_eq, ◌==◌,
  is_empty, take, drop, length, Map, lookup, insert, delete, lookup-insert, lookup-delete,
  if◌then◌else◌, ℤ, pos, negsuc, ℤ_eq,
}
use aistudio_gemini_gateway.Thinking.Body.{Json, path}
use aistudio_gemini_gateway.Thinking.Body.Fields.{JsonLaws}

abbrev pub entries_text : Map Text Text → Text
entries_text [] = []
entries_text ((p, v) ∷ m) = length p ∷ length v ∷ (p ++ (v ++ entries_text m))

abbrev pub table_text : Map Text Text → Text
table_text m = length m ∷ entries_text m

abbrev pub read_entries : ℕ → Text → Map Text Text
read_entries (suc n) (a ∷ b ∷ rest) =
    (take a rest, take b (drop a rest)) ∷ read_entries n (drop b (drop a rest))
read_entries _ _ = []

abbrev pub read_table : Text → Map Text Text
read_table [] = []
read_table (n ∷ rest) = read_entries n rest

take-append : (s t : Text) → take (length s) (s ++ t) ≡ s
take-append [] t = refl
take-append (c ∷ s) t = ap (λ u. c ∷ u) (take-append s t)

drop-append : (s t : Text) → drop (length s) (s ++ t) ≡ t
drop-append [] t = refl
drop-append (c ∷ s) t = drop-append s t

read_table-table_text : (m : Map Text Text) → read_table (table_text m) ≡ m
read_table-table_text [] = refl
read_table-table_text ((p, v) ∷ m) =
    rw
      (
        take-append p (v ++ entries_text m),
        drop-append p (v ++ entries_text m),
        take-append v (entries_text m),
        drop-append v (entries_text m),
      )
      (ap (λ r. (p, v) ∷ r) (read_table-table_text m))

abbrev pub int_text : ℤ → Text
int_text (pos n) = 0 ∷ n ∷ []
int_text (negsuc n) = 1 ∷ n ∷ []

abbrev pub text_int : Text → ℤ
text_int (zero ∷ n ∷ _) = pos n
text_int (suc _ ∷ n ∷ _) = negsuc n
text_int _ = pos 0

abbrev pub flat_json : Json Text
flat_json = record {
  is_valid = λ b. true;
  get = λ b p. lookup p (read_table b);
  set = λ b p v. table_text (insert p v (read_table b));
  remove = λ b p. table_text (delete p (read_table b));
  as_string = λ v. v;
  as_int = text_int;
  as_bool = λ v. text_int v == pos 1;
  of_string = λ s. s;
  of_int = int_text;
  of_bool = λ b. int_text (if b then pos 1 else pos 0);
}

abbrev pub IsTable : Text → Type 0
IsTable b = (m : Map Text Text) × (b ≡ table_text m)

int_back : (n : ℤ) → text_int (int_text n) ≡ n
int_back (pos n) = refl
int_back (negsuc n) = refl

pub flat_laws : JsonLaws flat_json IsTable
flat_laws = record {
  editable_valid = λ b h. refl;
  editable_given = λ b h. subst (λ c. is_empty c ≡ false) (sym h.1) refl;
  set_editable = λ b f v h. (_, refl);
  remove_editable = λ b f h. (_, refl);
  get_set = λ b f g v h.
      ap (lookup (path g)) (read_table-table_text (insert (path f) v (read_table b)))
      ∙ lookup-insert (path f) (path g) v (read_table b);
  get_remove = λ b f g h.
      ap (lookup (path g)) (read_table-table_text (delete (path f) (read_table b)))
      ∙ lookup-delete (path f) (path g) (read_table b);
  string_back = λ s. refl;
  int_back = int_back;
}
