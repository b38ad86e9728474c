-- ===== src/Observability/Tests.antt =====
-- A record with two fields of `extra`, formatted.
use swarmscope.Base.{◌≡◌, refl, [], ◌∷◌, codes}
use swarmscope.Observability.{format}

formatted :
    format (codes "msg" ∷ []) (codes "publish failed") (
      (record { key = codes "msg"; shown = codes "'x'" })
      ∷ (record { key = codes "event_id"; shown = codes "7" })
      ∷ (record { key = codes "_private"; shown = codes "1" })
      ∷ (record { key = codes "attempt"; shown = codes "2" })
      ∷ [])
    ≡ codes "publish failed attempt=2 event_id=7"
unfolding format
formatted = refl
