-- ===== src/Polling/Delivery.antt =====
-- A poll deletes a message only after it was forwarded
-- (modules/job/services/multi-queue-polling.service.ts).
use mathlib.Core.Path.{subst}
use common_api.Base.{
  ℕ, ◌+◌, ◌≤◌, ◌≡◌, ◌⊎◌, inl, inr, refl, sym, ap, ◌∙◌, String, Bool, true, false, Bool-cases,
  Option-cases, List, [], ◌∷◌, ◌++◌, Option, some, none, ◌==◌, if◌then◌else◌, truthy, length, All,
  arith,
}
use common_api.Base.Table.{find?, Distinct}
use common_api.Exceptions.{Exception, plain_error}
use common_api.Action.{ok, err}
use common_api.Job.Entities.{db, UnifiedJobMessage, JobStore, SentMessage}
use common_api.Job.Repository.{create_job}
use common_api.Job.Creation.{
  UnifiedJobRequest, stamped, create_unified_job, create_in_mode, create_job_in_db,
}
use common_api.Polling.Entities.{SqsMessage, Queues}
use common_api.Polling.Transform.{transform_message, parse_and_validate_message}
use common_api.Polling.Service.{
  PollPlatform, remove_message, unified_of, forwarded_message, forward_to_main_queue,
  delete_message, save_failed_message, forward_one, after_attempt, poll_one, poll_messages,
}

abbrev pub receipt : SqsMessage → ℕ
receipt m = m.receipt_handle

abbrev pub IsSent : SentMessage → List SentMessage → Type 0
IsSent x [] = ⊥
IsSent x (y ∷ ys) = (x ≡ y) ⊎ IsSent x ys

IsSent-append : (x : SentMessage) (ys zs : List SentMessage) → IsSent x ys → IsSent x (ys ++ zs)
IsSent-append x [] zs h = elim h [ ]
IsSent-append x (y ∷ ys) zs (inl e) = inl e
IsSent-append x (y ∷ ys) zs (inr h) = inr (IsSent-append x ys zs h)

IsSent-last : (x : SentMessage) (ys : List SentMessage) → IsSent x (ys ++ x ∷ [])
IsSent-last x [] = inl refl
IsSent-last x (y ∷ ys) = inr (IsSent-last x ys)

pub find?-remove_message :
    (k r : ℕ) (ms : List SqsMessage)
    → find? receipt k (remove_message r ms) ≡ (if k == r then none else find? receipt k ms)
unfolding remove_message
find?-remove_message k r [] = ground arith
find?-remove_message k r (m ∷ ms) = ground (arith, find?-remove_message k r ms)

module _ (p : PollPlatform) (queue_name : String) where
  abbrev pub forwarded_of : SqsMessage → SentMessage
  forwarded_of m = forwarded_message p queue_name (unified_of p queue_name m)

  create_job_in_db_sent :
      (m : UnifiedJobMessage) (s : JobStore) → (create_job_in_db m s).1.sent ≡ s.sent
  unfolding create_job_in_db create_job
  create_job_in_db_sent m s = ground arith

  create_unified_job_db_sent :
      (job_id : String) (app_id : Option String) (u : UnifiedJobMessage) (s : JobStore)
      → let r : UnifiedJobRequest = record { app_id = app_id; message = u; mode = some db } in
        (create_unified_job p.main_queue p.number_text true job_id r s).1.sent ≡ s.sent
  unfolding create_unified_job create_in_mode
  create_unified_job_db_sent job_id app_id u s =
      let r : UnifiedJobRequest = record { app_id = app_id; message = u; mode = some db } in
      elim (Option-cases u.execution) [
        | inl e ↦ ground (arith, e)
        | inr (x, e) ↦ ground (
          arith,
          e,
          create_job_in_db_sent (stamped p.main_queue p.number_text r x job_id s.now) s,
        )
      ]

  save_failed_message_kept :
      (m : SqsMessage) (s : Queues)
      → let s' = save_failed_message p queue_name m s in
        (s'.source ≡ s.source) × (s'.store.sent ≡ s.store.sent)
  unfolding save_failed_message
  save_failed_message_kept m s =
      let u =
        transform_message (parse_and_validate_message p.parse m) queue_name (p.generated_again m) in
      (refl, create_unified_job_db_sent (p.new_job_id m) u.metadata.app_id u s.store)

  -- The queues after a message is forwarded, and after it is deleted too.
  abbrev pub after_sent : SqsMessage → Queues → Queues
  after_sent m s = record s {
    store = record s.store { sent = s.store.sent ++ forwarded_of m ∷ [] };
  }

  abbrev pub after_moved : SqsMessage → Queues → Queues
  after_moved m s = record (after_sent m s) { source = remove_message m.receipt_handle s.source }

  forward_one-cases :
      (m : SqsMessage) (s : Queues)
      → (forward_one p queue_name m s ≡ (ok tt, after_moved m s))
        ⊎ ((e : Exception) × ((forward_one p queue_name m s ≡ (err e, s))
              ⊎ (forward_one p queue_name m s ≡ (err e, after_sent m s))))
  unfolding forward_one forward_to_main_queue delete_message
  forward_one-cases m s = elim (Option-cases (truthy p.main_queue.queue_url)) [
    | inl e ↦
        inr
          (plain_error "Main queue URL not configured (AWS_SQS_QUEUE_URL)", inl (ground (arith, e)))
    | inr (url, e) ↦ elim (Bool-cases (p.main_queue.accepts (forwarded_of m))) [
      | inr full ↦ inr (plain_error "SQS request failed", inl (ground (arith, e, full)))
      | inl taken ↦ elim (Bool-cases (p.deletes m)) [
        | inl gone ↦ inl (ground (arith, e, taken, gone))
        | inr stays ↦ inr (plain_error "SQS request failed", inr (ground (arith, e, taken, stays)))
      ]
    ]
  ]

  -- One round leaves a message where it is, or forwards it, and deletes it only then.
  pub record Round (m : SqsMessage) (s : Queues) (gone : Bool) (s' : Queues) : Type 0 where
    pub source : s'.source ≡ (if gone then remove_message m.receipt_handle s.source else s.source)
    pub sent :
        (s'.store.sent ≡ s.store.sent ++ forwarded_of m ∷ [])
        ⊎ ((gone ≡ false) × (s'.store.sent ≡ s.store.sent))

  poll_one-Round :
      (m : SqsMessage) (n : ℕ) (s : Queues)
      → (gone : Bool) × ((poll_one p queue_name m n s).0 ≡ (if gone then n + 1 else n))
        × Round m s gone (poll_one p queue_name m n s).1
  unfolding poll_one
  poll_one-Round m n s = elim (forward_one-cases m s) [
    | inl e ↦
        round_of true refl (ap (after_attempt p queue_name m n) e)
          (record { source = refl; sent = inl refl })
    | inr (x, inl e) ↦
        let (same, same_sent) = save_failed_message_kept m s in
        round_of false refl (ap (after_attempt p queue_name m n) e)
          (record { source = same; sent = inr (refl, same_sent) })
    | inr (x, inr e) ↦
        let (same, same_sent) = save_failed_message_kept m (after_sent m s) in
        round_of false refl (ap (after_attempt p queue_name m n) e)
          (record { source = same; sent = inl same_sent })
  ]
    where
      round_of :
          (gone : Bool) {k : ℕ} {s' : Queues}
          → k ≡ (if gone then n + 1 else n)
          → poll_one p queue_name m n s ≡ (k, s')
          → Round m s gone s'
          → (gone' : Bool) × ((poll_one p queue_name m n s).0 ≡ (if gone' then n + 1 else n))
            × Round m s gone' (poll_one p queue_name m n s).1
      round_of gone {k} {s'} e e' r =
          (gone, ap (λ t. t.0) e' ∙ e, subst (Round m s gone) (sym (ap (λ t. t.1) e')) r)

  -- A message is safe when it has been forwarded, or is found in the source queue as before.
  abbrev pub IsSafe : Queues → Queues → SqsMessage → Type 0
  IsSafe s s' m =
      IsSent (forwarded_of m) s'.store.sent
      ⊎ (find? receipt m.receipt_handle s'.source ≡ find? receipt m.receipt_handle s.source)

  -- A round keeps every message but its own where it is, and what has been sent.
  Round-IsSafe :
      (m : SqsMessage) (s : Queues) (gone : Bool) (s' : Queues) → Round m s gone s' → IsSafe s s' m
  Round-IsSafe m s true s' r = elim r.sent [
    | inl e ↦
        inl (subst (IsSent (forwarded_of m)) (sym e) (IsSent-last (forwarded_of m) s.store.sent))
    | inr (never, _) ↦ ground arith
  ]
  Round-IsSafe m s false s' r = inr (ap (find? receipt m.receipt_handle) r.source)

  Round-others :
      (m : SqsMessage) (s : Queues) (gone : Bool) (s' : Queues) (k : ℕ)
      → Round m s gone s'
      → (k == m.receipt_handle) ≡ false
      → find? receipt k s'.source ≡ find? receipt k s.source
  Round-others m s gone s' k r other =
      ground (arith, r.source, other, find?-remove_message k m.receipt_handle s.source)

  Round-sent :
      (m : SqsMessage) (s : Queues) (gone : Bool) (s' : Queues) (x : SentMessage)
      → Round m s gone s'
      → IsSent x s.store.sent
      → IsSent x s'.store.sent
  Round-sent m s gone s' x r h = elim r.sent [
    | inl e ↦ subst (IsSent x) (sym e) (IsSent-append x s.store.sent (forwarded_of m ∷ []) h)
    | inr (_, e) ↦ subst (IsSent x) (sym e) h
  ]

  apart_from :
      (k : ℕ) (ms : List SqsMessage)
      → find? receipt k ms ≡ none
      → All (λ x. (x.receipt_handle == k) ≡ false) ms
  apart_from k [] h = tt
  apart_from k (x ∷ ms) h = elim (Bool-cases (x.receipt_handle == k)) [
    | inl e ↦ ground (arith, e, h)
    | inr e ↦ (e, apart_from k ms (ground (arith, e, h)))
  ]

  IsSafe-before :
      (m : SqsMessage) (s : Queues) (gone : Bool) (s1 s' : Queues) (ms : List SqsMessage)
      → Round m s gone s1
      → All (λ x. (x.receipt_handle == m.receipt_handle) ≡ false) ms
      → All (IsSafe s1 s') ms
      → All (IsSafe s s') ms
  IsSafe-before m s gone s1 s' [] r a h = tt
  IsSafe-before m s gone s1 s' (x ∷ ms) r a h = (
    elim h.0 [
      | inl sent ↦ inl sent
      | inr e ↦ inr (e ∙ Round-others m s gone s1 x.receipt_handle r a.0)
    ],
    IsSafe-before m s gone s1 s' ms r a.1 h.1,
  )

  -- What the rounds over a list of messages have kept.
  pub record Kept (ms : List SqsMessage) (n : ℕ) (s : Queues) (n' : ℕ) (s' : Queues) : Type 0 where
    pub safe : All (IsSafe s s') ms
    pub others :
        (k : ℕ) → find? receipt k ms ≡ none → find? receipt k s'.source ≡ find? receipt k s.source
    pub still_sent : (x : SentMessage) → IsSent x s.store.sent → IsSent x s'.store.sent
    pub counted : (n ≤ n') × (n' ≤ n + length ms)

  -- Of polled messages with distinct receipts, for each the message that it is transformed to has
  -- been sent to the main queue, or it is found in the source queue as it was; other messages of
  -- the source queue stay, what had been sent stays sent, and no more are counted than were
  -- received.
  pub poll_messages-Kept :
      (ms : List SqsMessage) (n : ℕ) (s : Queues)
      → Distinct receipt ms
      → let (n', s') = poll_messages p queue_name ms n s in Kept ms n s n' s'
  unfolding poll_messages
  poll_messages-Kept [] n s d = record {
    safe = tt;
    others = λ k h. refl;
    still_sent = λ x h. h;
    counted = omega arith;
  }
  poll_messages-Kept (m ∷ ms) n s d =
      let (gone, count, r) = poll_one-Round m n s in
      let s1 = (poll_one p queue_name m n s).1 in
      let n1 = (poll_one p queue_name m n s).0 in
      let ih = poll_messages-Kept ms n1 s1 d.1 in
      let s' = (poll_messages p queue_name ms n1 s1).1 in
      record {
        safe = (
          elim (Round-IsSafe m s gone s1 r) [
            | inl sent ↦ inl (ih.still_sent (forwarded_of m) sent)
            | inr e ↦ inr (ih.others m.receipt_handle d.0 ∙ e)
          ],
          IsSafe-before m s gone s1 s' ms r (apart_from m.receipt_handle ms d.0) ih.safe,
        );
        others = λ k h. elim (Bool-cases (m.receipt_handle == k)) [
          | inl e ↦ ground (arith, e, h)
          | inr e ↦
              ih.others k (ground (arith, e, h)) ∙ Round-others m s gone s1 k r (ground (arith, e))
        ];
        still_sent = λ x h. ih.still_sent x (Round-sent m s gone s1 x r h);
        counted = ground (arith, count, ih.counted);
      }
