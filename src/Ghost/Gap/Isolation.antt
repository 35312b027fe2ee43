-- ===== src/Ghost/Gap/Isolation.antt =====
-- A gap of one feed in price_collector/ghost_twap.py leaves the other feed alone.
use pythonbtccollector.Common.{ℕ, ◌≡◌, refl, Option, none, [], ◌∷◌, arith}
use pythonbtccollector.Common.Dict.{lookup}
use pythonbtccollector.Common.Result.{ok}
use pythonbtccollector.Ghost.Types.{Feed, spot, twap, GapReason, connection_end}
use pythonbtccollector.Ghost.Engine.{Engine, key_Eq, History, drop_feed}
use pythonbtccollector.Ghost.Gap.{record_gap, apply_gap, end_connection, lose_feed}

-- Dropping a feed hides its own keys, and no other.
lookup-drop_spot :
    (source : ℕ) (h : History) → lookup (twap, source) (drop_feed spot h) ≡ lookup (twap, source) h
unfolding drop_feed
lookup-drop_spot source [] = refl
lookup-drop_spot source (((spot, n), e) ∷ h) = lookup-drop_spot source h
lookup-drop_spot source (((twap, n), e) ∷ h) = ground (arith, lookup-drop_spot source h)

lookup-drop_twap :
    (source : ℕ) (h : History) → lookup (spot, source) (drop_feed twap h) ≡ lookup (spot, source) h
unfolding drop_feed
lookup-drop_twap source [] = refl
lookup-drop_twap source (((twap, n), e) ∷ h) = lookup-drop_twap source h
lookup-drop_twap source (((spot, n), e) ∷ h) = ground (arith, lookup-drop_twap source h)

lookup-drop_self :
    (feed : Feed) (source : ℕ) (h : History) → lookup (feed, source) (drop_feed feed h) ≡ none
unfolding drop_feed
lookup-drop_self feed source [] = refl
lookup-drop_self spot source (((spot, n), e) ∷ h) = lookup-drop_self spot source h
lookup-drop_self spot source (((twap, n), e) ∷ h) = ground (arith, lookup-drop_self spot source h)
lookup-drop_self twap source (((twap, n), e) ∷ h) = lookup-drop_self twap source h
lookup-drop_self twap source (((spot, n), e) ∷ h) = ground (arith, lookup-drop_self twap source h)

-- A spot gap, whatever its reason and also where it raises, keeps each held TWAP event, the current
-- TWAP report, the conflicts and the high-water mark.
pub spot_gap_isolates :
    (reason : GapReason) (wall mono : Option ℕ) (s : Engine) (source : ℕ)
    → let t = (record_gap spot reason wall mono s).1 in
      (lookup (twap, source) t.history ≡ lookup (twap, source) s.history)
      × (t.current_twap ≡ s.current_twap)
      × (t.conflicts ≡ s.conflicts)
      × (t.twap_high_water ≡ s.twap_high_water)
      × (t.twap_regressed ≡ s.twap_regressed)
unfolding record_gap apply_gap end_connection lose_feed
spot_gap_isolates connection_end wall mono s source =
    ground (arith, lookup-drop_spot source s.history)
spot_gap_isolates reason wall mono s source = ground (arith, lookup-drop_spot source s.history)

-- A TWAP gap with a proper reason drops each held TWAP event, the current TWAP report and the
-- conflicts; it keeps each held spot event, the current spot report and the reconnect.
pub twap_gap_isolates :
    (reason : GapReason) (wall mono : Option ℕ) (s : Engine) (source : ℕ)
    → (record_gap twap reason wall mono s).0 ≡ ok tt
    → let t = (record_gap twap reason wall mono s).1 in
      (lookup (twap, source) t.history ≡ none)
      × (t.current_twap ≡ none)
      × (t.conflicts ≡ [])
      × (lookup (spot, source) t.history ≡ lookup (spot, source) s.history)
      × (t.current_spot ≡ s.current_spot)
      × (t.spot_reconnect ≡ s.spot_reconnect)
unfolding record_gap apply_gap lose_feed
twap_gap_isolates reason wall mono s source done =
    ground (arith, lookup-drop_twap source s.history, lookup-drop_self twap source s.history)
