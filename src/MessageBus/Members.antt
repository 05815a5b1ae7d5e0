-- ===== src/MessageBus/Members.antt =====
-- The subscribers of src/ipc/message_bus.c: each has an id of its own.
use akira_os.Prelude.{
  ℕ, zero, suc, ◌+◌, ◌-◌, ◌%◌, ◌^◌, ◌<◌, ◌≤◌, ◌≡◌, refl, sym, ap, subst, ◌∙◌, false, not, Option,
  none, some, List, [], ◌∷◌, ◌++◌, Ret, ok, if_case, option_case, leb, set, take, length,
  length-set, length-take, length-shift_down, All-append, CString, arith, Bool-cases, inl, inr,
  Option-cases, find_index, find_index-Found, shift_down, remove_at, take-shift_down, All,
  lt_of_get_elem?,
}
use akira_os.MessageBus.{
  Message, Subscriber, MsgQueue, Delivery, Bus, live, has_id, field_of, accepts, deliver, enqueue,
  msg_bus_subscribe, msg_bus_unsubscribe, max_subscribers,
}
use akira_os.MessageBus.Drain.{deliver_all, deliver_lem, send_to, select, wants}

-- The ids rise, from `low` on, and stay below `high`.
abbrev pub Rising : ℕ → ℕ → List Subscriber → Type 0
Rising low high [] = low ≤ high
Rising low high (s ∷ ss) = (low ≤ s.id) × Rising (s.id + 1) high ss

abbrev pub Others : ℕ → List Subscriber → Type 0
Others n subs = All (λ s. has_id n s ≡ false) subs

Rising-low :
    (low low' high : ℕ) (ss : List Subscriber)
    → low' ≤ low
    → Rising low high ss
    → Rising low' high ss
Rising-low low low' high [] le r = omega arith
Rising-low low low' high (s ∷ ss) le r = (omega (arith, r.0), r.1)

pub Rising-bounds : (low high : ℕ) (ss : List Subscriber) → Rising low high ss → low ≤ high
Rising-bounds low high [] r = r
Rising-bounds low high (s ∷ ss) r = omega (arith, r.0, Rising-bounds (s.id + 1) high ss r.1)

-- A new subscriber takes the next id.
Rising-snoc :
    (low high : ℕ) (ss : List Subscriber) (s : Subscriber)
    → s.id ≡ high
    → Rising low high ss
    → Rising low (high + 1) (ss ++ s ∷ [])
Rising-snoc low high [] s e r = (omega (arith, e, r), omega (arith, e))
Rising-snoc low high (x ∷ ss) s e r = (r.0, Rising-snoc (x.id + 1) high ss s e r.1)

Rising-remove_at :
    (low high i : ℕ) (ss : List Subscriber) → Rising low high ss → Rising low high (remove_at i ss)
Rising-remove_at low high i [] r = r
Rising-remove_at low high zero (s ∷ ss) r =
    Rising-low (s.id + 1) low high ss (omega (arith, r.0)) r.1
Rising-remove_at low high (suc i) (s ∷ ss) r = (r.0, Rising-remove_at (s.id + 1) high i ss r.1)

Rising-Others : (low high n : ℕ) (ss : List Subscriber) → n < low → Rising low high ss → Others n ss
Rising-Others low high n [] lt r = tt
Rising-Others low high n (s ∷ ss) lt r =
    (ground (arith, r.0), Rising-Others (s.id + 1) high n ss (omega (arith, r.0)) r.1)

-- With the one subscriber of an id gone, none is left that has it.
removed-Others :
    (low high n i : ℕ) (ss : List Subscriber)
    → find_index (has_id n) ss ≡ some i
    → Rising low high ss
    → Others n (remove_at i ss)
removed-Others low high n i [] e r = tt
removed-Others low high n i (s ∷ ss) e r = elim (Bool-cases (has_id n s)) [
  | inl here ↦
      let i_eq : 0 ≡ i = ground arith in
      subst (λ i. Others n (remove_at i (s ∷ ss))) i_eq
        (Rising-Others (s.id + 1) high n ss (ground arith) r.1)
  | inr other ↦ elim (Option-cases (find_index (has_id n) ss)) [
    | inl missing ↦ absurd (ground (arith, missing, other, e))
    | inr (j, found) ↦
        let i_eq : suc j ≡ i = ground (arith, found, other, e) in
        subst (λ i. Others n (remove_at i (s ∷ ss))) i_eq
          (other, removed-Others (s.id + 1) high n j ss found r.1)
  ]
]

pub record MembersValid {K : MsgQueue} (b : Bus K) : Type 0 where
  pub room : length b.subscribers ≡ max_subscribers
  pub count : b.subscriber_count ≤ max_subscribers
  pub ids : Rising 0 b.next_subscriber_id (live K b)

take-set_end :
    (n : ℕ) (xs : List Subscriber) (s : Subscriber)
    → n < length xs
    → take (suc n) (set xs n s) ≡ take n xs ++ s ∷ []
take-set_end n [] s lt = absurd (omega arith)
take-set_end zero (x ∷ xs) s lt = refl
take-set_end (suc n) (x ∷ xs) s lt = ap (◌∷◌ x) (take-set_end n xs s (omega arith))

pub deliver-Others :
    (n : ℕ) (subs : List Subscriber) (m : Message)
    → Others n subs
    → All (λ (d : Delivery). has_id n d.to ≡ false) (deliver subs m)
unfolding deliver
deliver-Others n [] m o = tt
deliver-Others n (s ∷ ss) m o =
    if_case (All (λ (d : Delivery). has_id n d.to ≡ false)) (accepts s m)
      (λ _. (o.0, deliver-Others n ss m o.1)) λ _. deliver-Others n ss m o.1

deliver_all-Others :
    (n : ℕ) (subs : List Subscriber) (ms : List Message)
    → Others n subs
    → All (λ (d : Delivery). has_id n d.to ≡ false) (deliver_all subs ms)
deliver_all-Others n subs [] o = tt
deliver_all-Others n subs (m ∷ ms) o =
    All-append (λ (d : Delivery). has_id n d.to ≡ false) (send_to m (select (wants m) subs))
      (deliver_all subs ms)
      (subst (All (λ (d : Delivery). has_id n d.to ≡ false)) (deliver_lem subs m)
        (deliver-Others n subs m o))
      (deliver_all-Others n subs ms o)

module _ (K : MsgQueue) where
  pub appended :
      (b : Bus K) (s : Subscriber)
      → b.subscriber_count < length b.subscribers
      → take (b.subscriber_count + 1) (set b.subscribers b.subscriber_count s) ≡ live K b ++ s ∷ []
  appended b s lt =
      let e : b.subscriber_count + 1 ≡ suc b.subscriber_count = omega arith in
      ap (λ k. take k (set b.subscribers b.subscriber_count s)) e
      ∙ take-set_end b.subscriber_count b.subscribers s lt

  -- Closing the gap leaves the others in order.
  pub closed :
      (b : Bus K) (n i : ℕ)
      → MembersValid b
      → find_index (has_id n) (live K b) ≡ some i
      → take (b.subscriber_count - 1) (shift_down (b.subscriber_count - 1 - i) i b.subscribers)
        ≡ remove_at i (live K b)
  closed b n i v e =
      let f = find_index-Found (has_id n) (live K b) i e in
      let lt = lt_of_get_elem? (live K b) i f.there in
      let len = length-take b.subscriber_count b.subscribers in
      let more : i < b.subscriber_count = omega (arith, lt, len) in
      let whole : suc (b.subscriber_count - 1) ≡ b.subscriber_count = omega (arith, more) in
      take-shift_down i (b.subscriber_count - 1 - i) (b.subscriber_count - 1) b.subscribers
        (omega (arith, more)) (omega (arith, more, v.room, v.count))
      ∙ ap (λ k. remove_at i (take k b.subscribers)) whole

  pub subscribe-MembersValid :
      (b : Bus K) (topic : Option CString) (handler : Option ℕ) (user_data : ℕ)
      → b.next_subscriber_id + 1 < 2 ^ 32
      → MembersValid b
      → MembersValid (msg_bus_subscribe K b topic handler user_data).1
  unfolding msg_bus_subscribe
  subscribe-MembersValid b none handler user_data w v =
      if_case (λ (r : Ret × Bus K). MembersValid r.1) (not b.initialized) (λ _. v) λ _. v
  subscribe-MembersValid b (some topic) none user_data w v =
      if_case (λ (r : Ret × Bus K). MembersValid r.1) (not b.initialized) (λ _. v) λ _. v
  subscribe-MembersValid b (some topic) (some handler) user_data w v =
      let P : Ret × Bus K → Type 0 = λ r. MembersValid r.1 in
      if_case P (not b.initialized) (λ _. v)
        λ _.
          if_case P (leb max_subscribers b.subscriber_count) (λ _. v)
            λ has_room.
              let sub : Subscriber = record {
                id = b.next_subscriber_id;
                handler = handler;
                user_data = user_data;
                topic_filter = field_of topic;
                min_priority = 0;
              } in
              record {
                room = length-set b.subscribers b.subscriber_count sub ∙ v.room;
                count = ground arith;
                ids =
                    subst (λ ss. Rising 0 ((b.next_subscriber_id + 1) % 2 ^ 32) ss)
                      (sym (appended b sub (ground (arith, v.room))))
                      (subst (λ (n : ℕ). Rising 0 n (live K b ++ sub ∷ []))
                        {x = b.next_subscriber_id + 1} (omega (arith, w))
                        (Rising-snoc 0 b.next_subscriber_id (live K b) sub refl v.ids));
              }

  pub unsubscribe-MembersValid :
      (b : Bus K) (n : ℕ) → MembersValid b → MembersValid (msg_bus_unsubscribe K b n).1
  unfolding msg_bus_unsubscribe
  unsubscribe-MembersValid b n v =
      let P : Ret × Bus K → Type 0 = λ r. MembersValid r.1 in
      if_case P (not b.initialized) (λ _. v)
        λ _.
          option_case P (find_index (has_id n) (live K b)) (λ _. v)
            λ i e. record {
              room = length-shift_down (b.subscriber_count - 1 - i) i b.subscribers ∙ v.room;
              count = omega (arith, v.count);
              ids =
                  subst (Rising 0 b.next_subscriber_id) (sym (closed b n i v e))
                    (Rising-remove_at 0 b.next_subscriber_id i (live K b) v.ids);
            }

  pub enqueue-MembersValid :
      (b : Bus K) (m : Message) → MembersValid b → MembersValid (enqueue K b m).1
  unfolding enqueue
  enqueue-MembersValid b m v =
      option_case (λ (r : Ret × Bus K). MembersValid r.1) (K.k_msgq_put b.msg_queue m)
        (λ _. record { room = v.room; count = v.count; ids = v.ids })
        λ q _. record { room = v.room; count = v.count; ids = v.ids }

  -- After an id is unsubscribed no message goes to it: whatever is published after a successful
  -- `msg_bus_unsubscribe`, in a valid state, the handlers that are called are those of other ids.
  pub unsubscribe-Others :
      (b : Bus K) (n : ℕ)
      → MembersValid b
      → (msg_bus_unsubscribe K b n).0 ≡ ok 0
      → Others n (live K (msg_bus_unsubscribe K b n).1)
  unfolding msg_bus_unsubscribe
  unsubscribe-Others b n v e =
      let P : Ret × Bus K → Type 0 = λ r. r.0 ≡ ok 0 → Others n (live K r.1) in
      if_case P (not b.initialized) (λ _ f. absurd (ground (arith, f)))
        (λ _.
          option_case P (find_index (has_id n) (live K b)) (λ _ f. absurd (ground (arith, f)))
            λ i found _.
              subst (Others n) (sym (closed b n i v found))
                (removed-Others 0 b.next_subscriber_id n i (live K b) found v.ids))
        e
