-- ===== src/Outbox/Campaign.antt =====
-- The campaign file of GhostSpool in price_collector/ghost_twap_spool.py: campaign, save_campaign and
-- _validate_campaign. The types and the names of the fields are those that are checked; a file that
-- is rewritten is replaced at once.
use Prim.Native.String.{count}
use text.Mathlib.Text.{◌==◌ as str_eq}
use pythonbtccollector.Common.{
  ℕ, ◌≡◌, refl, String, Bool, true, false, not, ◌&&◌, ◌||◌, Option, none, some, ltb, ◌==◌,
  if◌then◌else◌, arith, subst, ◌∙◌, ap,
}
use pythonbtccollector.Common.Int.{ℤ, pos, pos_part, neg_part, ltb_ℤ}
use pythonbtccollector.Common.Result.{
  Result, ok, err, ◌>>=◌, ◌>>◌, if_err_inv, >>=_inv, >>=_ok, ok_inj,
}

pub data CampaignError : Type 0 where
  bad_marker : CampaignError
  bad_clock_order : CampaignError
  bad_stop_reason : CampaignError
  mode_differs : CampaignError
  start_differs : CampaignError
  campaign_too_long : CampaignError

-- `continuous` is the marker, when the file has one.
pub record Campaign : Type 0 where
  pub start_ms : ℤ
  pub stop_reason : Option String
  pub last_wall_ms : ℤ
  pub continuous : Option Bool

unfoldable pub bad_reason : Option String → Bool
bad_reason none = false
bad_reason (some reason) = (count reason == 0) || ltb 128 (count reason)

-- `'continuous' in state and state['continuous'] is not True`
unfoldable pub marker_fails : Option Bool → Bool
marker_fails none = false
marker_fails (some marker) = not marker

-- _validate_campaign
unfoldable pub validate_campaign : Campaign → Result CampaignError Campaign
unfolding bad_reason marker_fails
validate_campaign s =
    if marker_fails s.continuous
    then err bad_marker
    else if not (ltb_ℤ (pos 0) s.start_ms) || ltb_ℤ s.last_wall_ms s.start_ms
    then err bad_clock_order
    else if bad_reason s.stop_reason
    then err bad_stop_reason
    else ok s

unfoldable pub same_ms : ℤ → ℤ → Bool
same_ms a b = (pos_part a == pos_part b) && (neg_part a == neg_part b)

unfoldable pub same_reason : Option String → Option String → Bool
same_reason none none = true
same_reason (some a) (some b) = str_eq a b
same_reason _ _ = false

unfoldable pub same_marker : Option Bool → Option Bool → Bool
same_marker none none = true
same_marker (some true) (some true) = true
same_marker (some false) (some false) = true
same_marker _ _ = false

-- `path.read_bytes() == raw`, of encodings with sorted keys
unfoldable pub campaign_eq : Campaign → Campaign → Bool
unfolding same_ms same_reason same_marker
campaign_eq a b =
    same_ms a.start_ms b.start_ms
    && same_reason a.stop_reason b.stop_reason
    && same_ms a.last_wall_ms b.last_wall_ms
    && same_marker a.continuous b.continuous

module _ (encoded : Campaign → ℕ) (max_record_bytes : ℕ) where
  unfoldable pub replace_campaign : Campaign → Result CampaignError (Option Campaign)
  replace_campaign s =
      if ltb max_record_bytes (encoded s) then err campaign_too_long else ok (some s)

  -- save_campaign of a valid state, by the file there is
  unfoldable pub save_over : Option Campaign → Campaign → Result CampaignError (Option Campaign)
  unfolding campaign_eq replace_campaign
  save_over none s = replace_campaign s
  save_over (some old) s = if campaign_eq old s then ok (some old) else replace_campaign s

  -- save_campaign
  unfoldable pub save_campaign : Campaign → Option Campaign → Result CampaignError (Option Campaign)
  unfolding validate_campaign save_over
  save_campaign s file = validate_campaign s >> save_over file s

  unfoldable pub is_continuous : Option Bool → Bool
  is_continuous none = false
  is_continuous (some marker) = marker

  unfoldable pub new_campaign : ℤ → Bool → Campaign
  new_campaign start_ms continuous = record {
    start_ms = start_ms;
    stop_reason = none;
    last_wall_ms = start_ms;
    continuous = if continuous then some true else none;
  }

  -- The tests of a campaign that was found.
  unfoldable pub resume_campaign :
      ℤ → Bool → Campaign → Result CampaignError (Campaign × Option Campaign)
  unfolding is_continuous same_ms
  resume_campaign start_ms true state =
      if is_continuous state.continuous then ok (state, some state) else err mode_differs
  resume_campaign start_ms false state =
      if is_continuous state.continuous
      then err mode_differs
      else if same_ms state.start_ms start_ms
      then ok (state, some state)
      else err start_differs

  -- campaign: the state, and the file after it
  unfoldable pub campaign :
      ℤ → Bool → Option Campaign → Result CampaignError (Campaign × Option Campaign)
  unfolding validate_campaign save_campaign resume_campaign new_campaign
  campaign start_ms continuous (some state) =
      validate_campaign state >> resume_campaign start_ms continuous state
  campaign start_ms continuous none =
      let state = new_campaign start_ms continuous in
      save_campaign state none >>= λ file. ok (state, file)

  resume_new :
      (start_ms : ℤ) (continuous : Bool)
      → resume_campaign start_ms continuous (new_campaign start_ms continuous)
        ≡ ok (new_campaign start_ms continuous, some (new_campaign start_ms continuous))
  unfolding resume_campaign new_campaign is_continuous same_ms
  resume_new start_ms true = refl
  resume_new start_ms false = rw (==_refl (pos_part start_ms), ==_refl (neg_part start_ms)) refl
    where
      ==_refl : (n : ℕ) → (n == n) ≡ true
      ==_refl n = ground arith

  -- A campaign that begins is found again: with the same start and mode it is returned unchanged.
  campaign_found :
      (start_ms : ℤ) (continuous : Bool) (state : Campaign) (file : Option Campaign)
      → campaign start_ms continuous none ≡ ok (state, file)
      → campaign start_ms continuous file ≡ ok (state, file)
  unfolding campaign save_campaign save_over replace_campaign
  campaign_found start_ms continuous state file h =
      let s = new_campaign start_ms continuous in
      let (found, saved, same) = >>=_inv (save_campaign s none) _ h in
      let (valid, checked, stored) = >>=_inv (validate_campaign s) _ saved in
      let (fits, kept) = if_err_inv (ltb max_record_bytes (encoded s)) _ _ stored in
      let pair : (◌≡◌ {A = Campaign × Option Campaign} (s, some s) (state, file)) =
        ap (λ f. (s, f)) (ok_inj kept) ∙ ok_inj same in
      subst (λ (p : Campaign × Option Campaign). campaign start_ms continuous p.1 ≡ ok p) pair
        (>>=_ok (validate_campaign s) _ checked (resume_new start_ms continuous))
