-- ===== src/Campaign/Invariant.antt =====
-- What holds of a campaign at every point of its life.
use rcs_bulk_messaging_syste.Prelude.{
  ℕ, ◌+◌, ◌<◌, ◌≡◌, refl, ap, ◌∙◌, false, ◌||◌, none, some, List, [], ◌∷◌, ◌++◌, map, arith, ◌==◌,
  if◌then◌else◌,
}
use rcs_bulk_messaging_syste.Prelude.Text.{Text, codes, text_eq}
use rcs_bulk_messaging_syste.Prelude.Results.{ok}
use rcs_bulk_messaging_syste.Prelude.Dict.{
  Dict, get_item, set_item, get_item-set_item, get_item-set_item_self,
}
use rcs_bulk_messaging_syste.Campaign.Types.{
  CampaignStatus, active, paused, completed, CampaignType, Priority, MetaValue, text_value,
  ids_value, Campaign,
}
use rcs_bulk_messaging_syste.Campaign.Lifecycle.{
  create, schedule, activate, pause, resume, complete, cancel, add_audience, update_stats_from_db,
  collect_events, mem_id,
}
use rcs_bulk_messaging_syste.Campaign.Steps.{
  Step, schedules, activates, pauses, resumes, completes, cancels, adds, updates, collects, Reach,
  here, next,
}

-- No audience is listed twice.
abbrev pub Distinct : List ℕ → Type 0
Distinct [] = Unit
Distinct (i ∷ l) = (mem_id i l ≡ false) × Distinct l

abbrev pub Started : CampaignStatus → ℕ → Type 0
Started active n = 0 < n
Started paused n = 0 < n
Started completed n = 0 < n
Started _ n = Unit

-- The metadata of a campaign lists its audiences, which is where the orchestrator reads them.
abbrev pub Synced : List ℕ → Dict MetaValue → Type 0
Synced [] d = get_item (codes "audience_ids") d ≡ none
Synced (i ∷ l) d = get_item (codes "audience_ids") d ≡ some (ids_value (i ∷ l))

pub record IsConsistent (c : Campaign) : Type 0 where
  pub totals : c.stats.total_recipients ≡ c.recipient_count
  pub distinct : Distinct c.audience_ids
  pub synced : Synced c.audience_ids c.metadata
  pub started : Started c.status c.recipient_count

mem_id-append : (i j : ℕ) (l : List ℕ) → mem_id j (l ++ i ∷ []) ≡ (mem_id j l || j == i)
mem_id-append i j [] = ground arith
mem_id-append i j (k ∷ l) = ground (arith, mem_id-append i j l)

Distinct-append : (l : List ℕ) (i : ℕ) → Distinct l → mem_id i l ≡ false → Distinct (l ++ i ∷ [])
Distinct-append [] i d h = (refl, tt)
Distinct-append (j ∷ l) i d h =
    (ground (arith, mem_id-append i j l), Distinct-append l i d.1 (ground arith))

Synced-add :
    (l : List ℕ) (i : ℕ) (d : Dict MetaValue)
    → Synced (l ++ i ∷ []) (set_item (codes "audience_ids") (ids_value (l ++ i ∷ [])) d)
Synced-add [] i d = get_item-set_item_self (codes "audience_ids") (ids_value (i ∷ [])) d
Synced-add (j ∷ l) i d =
    get_item-set_item_self (codes "audience_ids") (ids_value (j ∷ (l ++ i ∷ []))) d

other_key :
    (d : Dict MetaValue) (v : MetaValue)
    → get_item (codes "audience_ids") (set_item (codes "cancellation_reason") v d)
      ≡ get_item (codes "audience_ids") d
unfolding text_eq
other_key d v = get_item-set_item (codes "cancellation_reason") (codes "audience_ids") v d

Synced-cancel :
    (l : List ℕ) (d : Dict MetaValue) (v : MetaValue)
    → Synced l d
    → Synced l (set_item (codes "cancellation_reason") v d)
Synced-cancel [] d v h = other_key d v ∙ h
Synced-cancel (j ∷ l) d v h = other_key d v ∙ h

add_audience-IsConsistent :
    (now i n : ℕ) (c : Campaign) {c' : Campaign}
    → add_audience now i n c ≡ ok c'
    → IsConsistent c
    → IsConsistent c'
unfolding add_audience
add_audience-IsConsistent now i n c h v =
    ground (arith, Distinct-append c.audience_ids i, Synced-add c.audience_ids i c.metadata)

-- Every call keeps a campaign consistent.
pub Step-IsConsistent : {c c' : Campaign} → Step c c' → IsConsistent c → IsConsistent c'
unfolding schedule activate pause resume complete cancel update_stats_from_db collect_events
Step-IsConsistent (schedules now at h) v = ground arith
Step-IsConsistent (activates now h) v = ground arith
Step-IsConsistent (pauses now h) v = ground arith
Step-IsConsistent (resumes now h) v = ground arith
Step-IsConsistent (completes now h) v = ground arith
Step-IsConsistent {c} (cancels now reason h) v =
    ground (arith, Synced-cancel c.audience_ids c.metadata (text_value reason))
Step-IsConsistent {c} (adds now a n h) v = add_audience-IsConsistent now a n c h v
Step-IsConsistent (updates now d h) v = ground arith
Step-IsConsistent (collects h) v = ground arith

pub Reach-IsConsistent : {c c' : Campaign} → IsConsistent c → Reach c c' → IsConsistent c'
Reach-IsConsistent v here = v
Reach-IsConsistent v (next r s) = Step-IsConsistent s (Reach-IsConsistent v r)

create-IsConsistent :
    (now id : ℕ) (name : Text) (tenant template : ℕ) (kind : CampaignType) (p : Priority)
    {c : Campaign}
    → create now id name tenant template kind p ≡ ok c
    → IsConsistent c
unfolding create get_item
create-IsConsistent now id name tenant template kind p h = ground arith

-- The audiences that the calls have added, each with the number of recipients that it came with first.
unfoldable pub joined : {c c' : Campaign} → Step c c' → List (ℕ × ℕ) → List (ℕ × ℕ)
joined (adds now a n h) l = if mem_id a (map (λ p. p.0) l) then l else l ++ (a, n) ∷ []
joined _ l = l

unfoldable pub first_added : {c c' : Campaign} → Reach c c' → List (ℕ × ℕ)
first_added here = []
first_added (next r s) = joined s (first_added r)

unfoldable pub total : List (ℕ × ℕ) → ℕ
total [] = 0
total (p ∷ l) = p.1 + total l

-- The campaign lists those audiences, and counts the recipients of each once.
abbrev pub Counts : List (ℕ × ℕ) → Campaign → Type 0
Counts l c = (c.audience_ids ≡ map (λ p. p.0) l) × (c.recipient_count ≡ total l)

total-append : (a n : ℕ) (l : List (ℕ × ℕ)) → total (l ++ (a, n) ∷ []) ≡ total l + n
unfolding total
total-append a n [] = ground arith
total-append a n (p ∷ l) = ground (arith, total-append a n l)

ids-append :
    (a n : ℕ) (l : List (ℕ × ℕ)) → map (λ p. p.0) (l ++ (a, n) ∷ []) ≡ map (λ p. p.0) l ++ a ∷ []
ids-append a n [] = refl
ids-append a n (p ∷ l) = ap (λ k. p.0 ∷ k) (ids-append a n l)

add_audience-Counts :
    (now a n : ℕ) (c : Campaign) (l : List (ℕ × ℕ)) {c' : Campaign}
    → add_audience now a n c ≡ ok c'
    → Counts l c
    → Counts (if mem_id a (map (λ p. p.0) l) then l else l ++ (a, n) ∷ []) c'
unfolding add_audience
add_audience-Counts now a n c l h v =
    ground (arith, h, v.0, v.1, total-append a n l, ids-append a n l)

Step-Counts :
    {c c' : Campaign} (s : Step c c') (l : List (ℕ × ℕ)) → Counts l c → Counts (joined s l) c'
unfolding joined schedule activate pause resume complete cancel update_stats_from_db collect_events
Step-Counts (schedules now at h) l v = ground (arith, h, v.0, v.1)
Step-Counts (activates now h) l v = ground (arith, h, v.0, v.1)
Step-Counts (pauses now h) l v = ground (arith, h, v.0, v.1)
Step-Counts (resumes now h) l v = ground (arith, h, v.0, v.1)
Step-Counts (completes now h) l v = ground (arith, h, v.0, v.1)
Step-Counts (cancels now reason h) l v = ground (arith, h, v.0, v.1)
Step-Counts {c} (adds now a n h) l v = add_audience-Counts now a n c l h v
Step-Counts (updates now d h) l v = ground (arith, h, v.0, v.1)
Step-Counts (collects h) l v = ground (arith, h, v.0, v.1)

Reach-Counts : {c c' : Campaign} → Counts [] c → (r : Reach c c') → Counts (first_added r) c'
unfolding first_added
Reach-Counts v here = v
Reach-Counts v (next r s) = Step-Counts s (first_added r) (Reach-Counts v r)

create-Counts :
    (now id : ℕ) (name : Text) (tenant template : ℕ) (kind : CampaignType) (p : Priority)
    {c : Campaign}
    → create now id name tenant template kind p ≡ ok c
    → Counts [] c
unfolding create total
create-Counts now id name tenant template kind p h = ground (arith, h)

-- From its creation on, over any calls, a campaign lists the audiences that were added, in their order, none
-- twice, and counts the recipients of each once, by the number that it was added with first; it has its audiences
-- in the metadata where the orchestrator looks for them, and has recipients as soon as it is active.
pub created-IsConsistent :
    (now id : ℕ) (name : Text) (tenant template : ℕ) (kind : CampaignType) (p : Priority)
    {c c' : Campaign}
    → create now id name tenant template kind p ≡ ok c
    → (r : Reach c c') → IsConsistent c' × Counts (first_added r) c'
created-IsConsistent now id name tenant template kind p h r = (
  Reach-IsConsistent (create-IsConsistent now id name tenant template kind p h) r,
  Reach-Counts (create-Counts now id name tenant template kind p h) r,
)
