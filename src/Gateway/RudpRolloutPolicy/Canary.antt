-- ===== src/Gateway/RudpRolloutPolicy/Canary.antt =====
-- How the selected sessions grow with the percentage.
use knights.Base.{ℕ, ◌+◌, ◌≡◌, true, false, not, ◌||◌, List, arith}
use knights.Gateway.RudpRolloutPolicy.{RudpRolloutPolicy, session_selected}

-- A session that a policy selects stays selected when the percentage grows. At 0 no session is selected, and
-- from 100 on all are if the policy is enabled and none otherwise.
pub session_selected-grows :
    (p : RudpRolloutPolicy) (extra : ℕ) (session_id : List ℕ) (nonce : ℕ)
    → (not (session_selected p session_id nonce)
          || session_selected
              (record p { canary_percent = p.canary_percent + extra })
              session_id
              nonce
        ≡ true)
      × (session_selected (record p { canary_percent = 100 + extra }) session_id nonce ≡ p.enabled)
      × (session_selected (record p { canary_percent = 0 }) session_id nonce ≡ false)
unfolding session_selected
session_selected-grows p extra session_id nonce = ground arith
