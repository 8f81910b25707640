-- ===== src/Selector/Untried.antt =====
-- No strategy gives a provider that was tried.
use aistudio_gemini_gateway.Base.{
  ℕ, ◌≡◌, refl, ap, ◌∙◌, inl, inr, Bool, true, false, not, ◌&&◌, List, [], ◌∷◌, Text, text_eq,
  nat_eq, ◌==◌, ==_iff, ==_refl, ok, Bool-cases, is_empty, trim_space, to_lower,
  trim_space_idempotent, to_lower_idempotent, trim_space-to_lower, arith,
}
use aistudio_gemini_gateway.Service.Provider.{RuntimeProvider}
use aistudio_gemini_gateway.Selector.Candidates.{
  normalize_id, normalize_tried, is_member, contains_tried,
}
use aistudio_gemini_gateway.Selector.Choice.{IsBest}
use aistudio_gemini_gateway.Selector.Strategies.{session_affinity_select-IsBest}
use aistudio_gemini_gateway.Selector.{Request, SessionAffinity, session_affinity_select}

pub normalize_id_idempotent : (id : Text) → normalize_id (normalize_id id) ≡ normalize_id id
unfolding normalize_id
normalize_id_idempotent id =
    ap to_lower (trim_space-to_lower (trim_space id) ∙ ap to_lower (trim_space_idempotent id))
    ∙ to_lower_idempotent (trim_space id)

is_member-normalize_tried :
    (id : Text) (tried : List Text)
    → normalize_id id ≡ id
    → is_empty id ≡ false
    → is_member id tried ≡ true
    → is_member id (normalize_tried tried) ≡ true
is_member-normalize_tried id [] n given h = cc
is_member-normalize_tried id (t ∷ ts) n given h = elim (Bool-cases (t == id)) [
  | inl same ↦ rw ((==_iff t id).0 same, n, given, ==_refl id) refl
  | inr other ↦ elim (Bool-cases (is_empty (normalize_id t))) [
    | inl blank ↦ rw blank (is_member-normalize_tried id ts n given (rw other at h))
    | inr named ↦ ground (arith, named, is_member-normalize_tried id ts n given (rw other at h))
  ]
]

passed : (a b : Bool) → a ≡ true → (not a && b) ≡ true → ⊥
passed a b h k = let f : false ≡ true = rw h at k in cc

pub IsBest-untried :
    (now : ℕ) (tried : List Text) (ps : List RuntimeProvider) (p : RuntimeProvider)
    → is_empty (normalize_id p.id) ≡ false
    → IsBest now tried ps p
    → is_member (normalize_id p.id) tried ≡ false
unfolding contains_tried
IsBest-untried now tried ps p named b = elim (Bool-cases (is_member (normalize_id p.id) tried)) [
  | inr fresh ↦ fresh
  | inl was ↦
      let found =
        is_member-normalize_tried (normalize_id p.id) tried (normalize_id_idempotent p.id) named
          was in
      absurd (passed _ _ found b.ready)
]

-- Session affinity, with or without a session, gives no provider whose normalized id, which is not
-- blank, is among the ids that were tried.
pub session_affinity_select-untried :
    (now : ℕ) (req : Request) (ps : List RuntimeProvider) (tried : List Text) (s : SessionAffinity)
    (p : RuntimeProvider)
    → is_empty (normalize_id p.id) ≡ false
    → (session_affinity_select now req ps tried s).1 ≡ ok p
    → is_member (normalize_id p.id) tried ≡ false
session_affinity_select-untried now req ps tried s p named e =
    IsBest-untried now tried ps p named (session_affinity_select-IsBest now req ps tried s p e)
