-- ===== src/Pipeline/Attempts/Reach.antt =====
-- The loop tries each provider once at most.
use aistudio_gemini_gateway.Base.{◌≡◌, false, List, [], ◌∷◌, Text, nat_eq, text_eq, ok}
use aistudio_gemini_gateway.Service.Provider.{RuntimeProvider}
use aistudio_gemini_gateway.Service.Errors.{GatewayError}
use aistudio_gemini_gateway.Selector.Candidates.{normalize_id, is_member}
use aistudio_gemini_gateway.Pipeline.{RequestContext}
use aistudio_gemini_gateway.Pipeline.Attempts.{Environment}

abbrev pub AreDistinct : List Text → Type 0
AreDistinct [] = Unit
AreDistinct (id ∷ ids) = (is_member id ids ≡ false) × AreDistinct ids

module _ {W R : Type 0} (env : Environment W R) (c : RequestContext) where
  -- What the parts of the loop keep about the world, and that in such a world the selector gives none of
  -- the listed providers that was tried.
  pub record Respects (Good : W → Type 0) : Type 0 where
    pub untried :
        (w : W) (tried : List Text) (p : RuntimeProvider)
        → Good w
        → (env.select w (env.list_selectable w) tried).1 ≡ ok p
        → is_member (normalize_id p.id) tried ≡ false
    pub selects :
        (w : W) (tried : List Text) → Good w → Good (env.select w (env.list_selectable w) tried).0
    pub executes : (w : W) (p : RuntimeProvider) → Good w → Good (env.execute w p).0
    pub cools :
        (w : W) (p : RuntimeProvider) (e : GatewayError) → Good w → Good (env.cool_down w p e)
