-- ===== src/Base/Thread/Lifecycle.antt =====
-- Which calls of `start` and `join` a thread accepts.
use carf_lib.Shared.{
  ◌≡◌, refl, ◌↔◌, Bool, true, false, not, Option, none, some, List, [], ◌∷◌, ◌>>=◌,
}
use carf_lib.Base.Thread.{Thread, make, start, join}

pub data Call : Type 0 where
  starts joins : Call

unfoldable pub calls : Thread → List Call → Option Thread
unfolding start join
calls t [] = some t
calls t (starts ∷ rest) = start t >>= λ t'. calls t' rest
calls t (joins ∷ rest) = join t >>= λ t'. calls t' rest

-- One start, and behind it one join where the thread is not detached.
abbrev pub accepted : Bool → List Call → Bool
accepted detach [] = true
accepted detach (starts ∷ []) = true
accepted detach (starts ∷ joins ∷ []) = not detach
accepted detach _ = false

-- A fresh thread passes the assertions of exactly these sequences of calls: none, one `start`, and,
-- unless it is detached, one `start` followed by one `join`.
pub calls-accepted :
    (detach : Bool) (cs : List Call)
    → (calls (make detach) cs ≡ none) ↔ (accepted detach cs ≡ false)
unfolding calls
calls-accepted detach [] = (λ e. cc, λ e. cc)
calls-accepted detach (joins ∷ cs) = (λ e. refl, λ e. refl)
calls-accepted detach (starts ∷ []) = (λ e. cc, λ e. cc)
calls-accepted detach (starts ∷ starts ∷ cs) = (λ e. refl, λ e. refl)
calls-accepted true (starts ∷ joins ∷ []) = (λ e. refl, λ e. refl)
calls-accepted false (starts ∷ joins ∷ []) = (λ e. cc, λ e. cc)
calls-accepted true (starts ∷ joins ∷ c ∷ cs) = (λ e. refl, λ e. refl)
calls-accepted false (starts ∷ joins ∷ starts ∷ cs) = (λ e. refl, λ e. refl)
calls-accepted false (starts ∷ joins ∷ joins ∷ cs) = (λ e. refl, λ e. refl)
