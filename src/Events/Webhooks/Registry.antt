-- ===== src/Events/Webhooks/Registry.antt =====
-- To which subscriptions an event goes, after any call of the registry.
use onlyapi.Base.{
  Bool, List, Map, Option, String, [], arith, delete, eq_iff, false, filter, get, get-delete,
  get-set, map, none, refl, set, some, str_eq, ◌&&◌, ◌||◌, ◌≡◌, ◌∷◌, ap, has, if◌then◌else◌, true,
  ◌∙◌, Option-cases, inl, inr,
}
use onlyapi.Core.Results.{Outcome, err, ok}
use onlyapi.Events.Webhooks.{
  WebhookSubscription, listens_to, CreateWebhookData, WebhookDelivery, WebhookRegistry,
  create_webhook, find_by_event, new_subscription, record_delivery, remove_webhook, set_active,
  no_webhooks,
}

-- Every subscription stands once, under its own id.
abbrev pub IsSound : Map WebhookSubscription → Type 0
IsSound [] = Unit
IsSound ((j, sub) ∷ m) = (sub.id ≡ j) × (get j m ≡ none) × IsSound m

-- A subscription with the id is among those listed.
abbrev pub has_id : String → List WebhookSubscription → Bool
has_id id [] = false
has_id id (sub ∷ subs) = str_eq sub.id id || has_id id subs

-- The answer of a search lists one with the id.
abbrev pub is_found : String → Outcome (List WebhookSubscription) → Bool
is_found id (ok subs) = has_id id subs
is_found id (err e) = false

-- The subscription that the store holds is active and listens to the event.
abbrev pub is_wanted : String → Option WebhookSubscription → Bool
is_wanted type_ none = false
is_wanted type_ (some sub) = sub.active && listens_to type_ sub.events

set-IsSound :
    (id : String) (sub : WebhookSubscription) (m : Map WebhookSubscription)
    → sub.id ≡ id
    → IsSound m
    → IsSound (set id sub m)
unfolding set get
set-IsSound id sub [] e s = (e, refl, tt)
set-IsSound id sub ((j, w) ∷ m) e s =
    ground (arith, eq_iff j id, eq_iff id j, get-set j id sub m, set-IsSound id sub m e s.2)

delete-IsSound : (id : String) (m : Map WebhookSubscription) → IsSound m → IsSound (delete id m)
unfolding delete
delete-IsSound id [] s = tt
delete-IsSound id ((j, w) ∷ m) s =
    ground (arith, eq_iff j id, get-delete j id m, delete-IsSound id m s.2)

get-IsSound :
    (id : String) (sub : WebhookSubscription) (m : Map WebhookSubscription)
    → IsSound m
    → get id m ≡ some sub
    → sub.id ≡ id
unfolding get
get-IsSound id sub [] s h = absurd cc
get-IsSound id sub ((j, w) ∷ m) s h = ground (arith, eq_iff j id, get-IsSound id sub m s.2)

found_lem :
    (type_ id : String) (m : Map WebhookSubscription)
    → IsSound m
    → has_id id (filter (λ sub. sub.active && listens_to type_ sub.events) (map (λ e. e.1) m))
      ≡ is_wanted type_ (get id m)
unfolding get
found_lem type_ id [] s = refl
found_lem type_ id ((j, w) ∷ m) s = ground (arith, eq_iff j id, found_lem type_ id m s.2)

-- The calls that change a registry.
pub data WebhookCall : Type 0 where
  creates : String → String → CreateWebhookData → WebhookCall
  removes : String → WebhookCall
  activates : String → Bool → WebhookCall
  records : WebhookDelivery → WebhookCall

abbrev pub run_call : WebhookCall → WebhookRegistry → WebhookRegistry
run_call (creates id now data_) reg = (create_webhook id now data_ reg).1
run_call (removes id) reg = (remove_webhook id reg).1
run_call (activates id active) reg = (set_active id active reg).1
run_call (records delivery) reg = (record_delivery delivery reg).1

-- What a client knows of an id: the events it is to hear of, and whether it is active.
abbrev pub View : Type 0
View = String → Option (List String × Bool)

abbrev pub known : Option WebhookSubscription → Option (List String × Bool)
known none = none
known (some sub) = some (sub.events, sub.active)

abbrev pub view : WebhookRegistry → View
view reg j = known (get j reg.store)

abbrev pub switched : Bool → Option (List String × Bool) → Option (List String × Bool)
switched active none = none
switched active (some (events, old)) = some (events, active)

abbrev pub next : WebhookCall → View → View
next (creates id now data_) v j = if str_eq id j then some (data_.events, true) else v j
next (removes id) v j = if str_eq id j then none else v j
next (activates id active) v j = if str_eq id j then switched active (v j) else v j
next (records delivery) v j = v j

-- Whether an event goes to an id.
abbrev pub notified : String → Option (List String × Bool) → Bool
notified type_ none = false
notified type_ (some (events, active)) = active && listens_to type_ events

found-notified :
    (type_ id : String) (reg : WebhookRegistry)
    → IsSound reg.store
    → is_found id (find_by_event type_ reg) ≡ notified type_ (view reg id)
unfolding find_by_event
found-notified type_ id reg s = found_lem type_ id reg.store s ∙ wanted (get id reg.store)
  where
    wanted : (o : Option WebhookSubscription) → is_wanted type_ o ≡ notified type_ (known o)
    wanted none = refl
    wanted (some sub) = refl

call-IsSound :
    (c : WebhookCall) (reg : WebhookRegistry) → IsSound reg.store → IsSound (run_call c reg).store
unfolding create_webhook remove_webhook set_active record_delivery
call-IsSound (creates id now data_) reg s =
    set-IsSound id (new_subscription id now data_) reg.store refl s
call-IsSound (removes id) reg s = ground (arith, delete-IsSound id reg.store s)
call-IsSound (activates id active) reg s = elim (Option-cases (get id reg.store)) [
  | inl e ↦ rw (e, run_call) s
  | inr (sub, e) ↦
      rw (e, run_call)
        (set-IsSound id (record sub { active = active }) reg.store
          (get-IsSound id sub reg.store s e) s)
]
call-IsSound (records delivery) reg s = s

call-view :
    (c : WebhookCall) (reg : WebhookRegistry) (j : String)
    → view (run_call c reg) j ≡ next c (view reg) j
unfolding create_webhook remove_webhook set_active record_delivery has
call-view (creates id now data_) reg j =
    ground (arith, get-set j id (new_subscription id now data_) reg.store)
call-view (removes id) reg j = ground (arith, eq_iff id j, get-delete j id reg.store)
call-view (activates id active) reg j = elim (Option-cases (get id reg.store)) [
  | inl e ↦ ground (arith, e, eq_iff id j)
  | inr (sub, e) ↦
      ground (arith, e, eq_iff id j, get-set j id (record sub { active = active }) reg.store)
]
call-view (records delivery) reg j = refl

-- The registry after calls, the first one first, and the view that they ask for.
abbrev pub run_calls : List WebhookCall → WebhookRegistry → WebhookRegistry
run_calls [] reg = reg
run_calls (c ∷ calls) reg = run_calls calls (run_call c reg)

abbrev pub expected : List WebhookCall → View → View
expected [] v = v
expected (c ∷ calls) v = expected calls (next c v)

calls-IsSound :
    (calls : List WebhookCall) (reg : WebhookRegistry)
    → IsSound reg.store
    → IsSound (run_calls calls reg).store
calls-IsSound [] reg s = s
calls-IsSound (c ∷ calls) reg s = calls-IsSound calls (run_call c reg) (call-IsSound c reg s)

calls-view :
    (calls : List WebhookCall) (reg : WebhookRegistry)
    → view (run_calls calls reg) ≡ expected calls (view reg)
calls-view [] reg = refl
calls-view (c ∷ calls) reg =
    calls-view calls (run_call c reg) ∙ ap (expected calls) (λ i k. call-view c reg k i)

-- After any calls of an empty registry, in any order, every subscription stands under its own id, and
-- the search for an event finds an id exactly if the calls on that id leave it subscribed to the event
-- and active: the last of them that created it gives its events, and a later removal or switch counts.
pub find_by_event-expected :
    (calls : List WebhookCall) (type_ j : String)
    → IsSound (run_calls calls no_webhooks).store
      × (is_found j (find_by_event type_ (run_calls calls no_webhooks))
          ≡ notified type_ (expected calls (λ k. none) j))
unfolding get
find_by_event-expected calls type_ j =
    let s = calls-IsSound calls no_webhooks tt in
    (
      s,
      found-notified type_ j (run_calls calls no_webhooks) s
          ∙ ap (λ v. notified type_ (v j)) (calls-view calls no_webhooks),
    )
