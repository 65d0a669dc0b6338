-- ===== src/Admission/Gate/Delivery.antt =====
-- internal/admission/gate.go: the gate's steps, who waits at it, and what a dispatch sends to whom.
use mathlib.Core.Path.{subst}
use llm2api.Prelude.{
  sym, ap, ◌∙◌, ℕ, ◌≡◌, refl, Bool, true, Option, none, some, List, [], ◌∷◌, ◌++◌, Assoc, find,
  erase, Option-cases, inl, inr, arith, if◌then◌else◌,
}
use llm2api.Admission.Types.{Admission, Expiration}
use llm2api.Admission.Queue.{dispatch, release, is_some}
use llm2api.Admission.Queue.Invariant.{Inv}
use llm2api.Admission.Queue.Operations.{dispatch-Inv, dispatch-lem, dispatch_expired}
use llm2api.Admission.Queue.Expire.{expired_ids}
use llm2api.Admission.Queue.Fill.{admitted_ids}
use llm2api.Admission.Queue.Filed.{unfile, AllFiled, SameIds, SameIds-unfile, AllFiled-SameIds}
use mathlib.Core.List.{append-nil, append_assoc}
use llm2api.Admission.Gate.{
  GateResult, admitted, queue_timeout, Gate, deliver, deliver_expired, deliver_admitted,
  dispatch_locked,
}

-- The results of a dispatch with the IDs that they are for, in the order in which they are sent.
abbrev pub timeouts : List Expiration → List (ℕ × GateResult)
timeouts [] = []
timeouts (e ∷ es) = (e.ticket.id, queue_timeout) ∷ timeouts es

abbrev pub admissions : List Admission → List (ℕ × GateResult)
admissions [] = []
admissions (a ∷ rest) = (a.ticket.id, admitted a) ∷ admissions rest

abbrev channel_of : Option ℕ → ℕ
channel_of none = 0
channel_of (some waiter) = waiter

-- Each result to the waiter of its ID, who waits no more after that.
abbrev pub to_waiters : Assoc ℕ → List (ℕ × GateResult) → List (ℕ × GateResult)
to_waiters waiters [] = []
to_waiters waiters ((id, result) ∷ rest) =
    (channel_of (find id waiters), result) ∷ to_waiters (erase id waiters) rest

-- A result for someone who waits.
delivered :
    (g : Gate) (id : ℕ) (result : GateResult)
    → is_some (find id g.waiters) ≡ true
    → deliver g id result ≡ (
      record g {
        waiters = erase id g.waiters;
        sent = g.sent ++ to_waiters g.waiters ((id, result) ∷ []);
      },
      true,
    )
unfolding deliver
delivered g id result h = elim (Option-cases (find id g.waiters)) [
  | inl e ↦ ground (arith, e, h)
  | inr (w, e) ↦ rw (deliver, e) refl
]

-- Results for those who wait, each for another one.
abbrev send_all : Gate → List ℕ → List (ℕ × GateResult) → Gate
send_all g ids results = record g {
  waiters = unfile ids g.waiters;
  sent = g.sent ++ to_waiters g.waiters results;
}

deliver_expired-all :
    (g : Gate) (es : List Expiration)
    → AllFiled (expired_ids es) g.waiters
    → deliver_expired g es ≡ send_all g (expired_ids es) (timeouts es)
unfolding deliver_expired
deliver_expired-all g [] h =
    ap (λ (s : List (ℕ × GateResult)). record g { sent = s }) (sym (append-nil g.sent))
deliver_expired-all g (e ∷ es) h =
    let id = e.ticket.id in
    let next = send_all g (id ∷ []) ((id, queue_timeout) ∷ []) in
    ap (λ (d : Gate × Bool). deliver_expired d.0 es) (delivered g id queue_timeout h.0)
    ∙ deliver_expired-all next es h.1
    ∙ ap
        (λ (s : List (ℕ × GateResult)). record g {
          waiters = unfile (expired_ids es) next.waiters;
          sent = s;
        })
        (append_assoc g.sent (to_waiters g.waiters ((id, queue_timeout) ∷ [])) _)

deliver_admitted-all :
    (g : Gate) (rest : List Admission)
    → AllFiled (admitted_ids rest) g.waiters
    → deliver_admitted g rest ≡ send_all g (admitted_ids rest) (admissions rest)
unfolding deliver_admitted
deliver_admitted-all g [] h =
    ap (λ (s : List (ℕ × GateResult)). record g { sent = s }) (sym (append-nil g.sent))
deliver_admitted-all g (a ∷ rest) h =
    let id = a.ticket.id in
    let next = send_all g (id ∷ []) ((id, admitted a) ∷ []) in
    ap
      (λ (d : Gate × Bool).
        deliver_admitted (if d.1 then d.0 else record d.0 { queue = (release d.0.queue id).0 })
          rest)
      (delivered g id (admitted a) h.0)
    ∙ deliver_admitted-all next rest h.1
    ∙ ap
        (λ (s : List (ℕ × GateResult)). record g {
          waiters = unfile (admitted_ids rest) next.waiters;
          sent = s;
        })
        (append_assoc g.sent (to_waiters g.waiters ((id, admitted a) ∷ [])) _)

-- What holds of a gate whenever its lock is free: its queue is well formed, and those who wait are
-- exactly the tickets that wait.
pub record GateInv (g : Gate) : Type 0 where
  pub queue : Inv g.queue
  pub matched : SameIds g.waiters g.queue.waiting_ticket

-- What a dispatch makes of such a gate.
pub record Dispatched (g : Gate) (now : ℕ) (g' : Gate) : Type 0 where
  pub inv : GateInv g'
  -- No admitted ticket is released again.
  pub queue : g'.queue ≡ (dispatch g.queue now).0
  -- Every ticket that leaves had its waiter, and its result was sent there.
  pub had_waiters :
      let d = (dispatch g.queue now).1 in
      AllFiled (expired_ids d.expired) g.waiters
      × AllFiled (admitted_ids d.admitted) (unfile (expired_ids d.expired) g.waiters)
  pub sent :
      let d = (dispatch g.queue now).1 in
      g'.sent
      ≡ g.sent
        ++ to_waiters g.waiters (timeouts d.expired)
        ++ to_waiters (unfile (expired_ids d.expired) g.waiters) (admissions d.admitted)

module _ (g : Gate) (now : ℕ) (v : GateInv g) where
  abbrev expired : List Expiration
  expired = (dispatch g.queue now).1.expired

  abbrev entered : List Admission
  entered = (dispatch g.queue now).1.admitted

  -- The queue's side: what leaves was waiting, and nothing else leaves.
  dispatch-leaves :
      AllFiled (expired_ids expired) g.queue.waiting_ticket
      × AllFiled (admitted_ids entered) (unfile (expired_ids expired) g.queue.waiting_ticket)
      × ((dispatch g.queue now).0.waiting_ticket
          ≡ unfile (admitted_ids entered) (unfile (expired_ids expired) g.queue.waiting_ticket))
  dispatch-leaves =
      let (e, f) = dispatch-lem g.queue now v.queue in
      let gone = (rw (sym (dispatch_expired g.queue now)) at e.expires) in
      (
        gone.filed,
        subst (AllFiled (admitted_ids entered)) gone.unfiled f.filed,
        f.unfiled ∙ ap (unfile (admitted_ids entered)) gone.unfiled,
      )

  abbrev dispatched : Gate
  dispatched =
      send_all
        (send_all (record g { queue = (dispatch g.queue now).0 }) (expired_ids expired)
          (timeouts expired))
        (admitted_ids entered) (admissions entered)

  had :
      AllFiled (expired_ids expired) g.waiters
      × AllFiled (admitted_ids entered) (unfile (expired_ids expired) g.waiters)
  had =
      let (es, bs, _) = dispatch-leaves in
      (
        AllFiled-SameIds (expired_ids expired) g.waiters g.queue.waiting_ticket v.matched es,
        AllFiled-SameIds (admitted_ids entered) _ _
            (SameIds-unfile (expired_ids expired) g.waiters g.queue.waiting_ticket v.matched) bs,
      )

  dispatch_locked-all : dispatch_locked g now ≡ dispatched
  unfolding dispatch_locked
  dispatch_locked-all =
      ap (λ x. deliver_admitted x entered)
        (deliver_expired-all (record g { queue = (dispatch g.queue now).0 }) expired had.0)
      ∙ deliver_admitted-all _ entered had.1

  dispatched-GateInv : GateInv dispatched
  dispatched-GateInv =
      let (_, _, left) = dispatch-leaves in
      record {
        queue = dispatch-Inv g.queue now v.queue;
        matched = subst (SameIds dispatched.waiters) (sym left) (
            SameIds-unfile (admitted_ids entered) _ _
              (SameIds-unfile (expired_ids expired) g.waiters g.queue.waiting_ticket v.matched));
      }

  pub dispatch_locked-Dispatched : Dispatched g now (dispatch_locked g now)
  dispatch_locked-Dispatched =
      subst (Dispatched g now) (sym dispatch_locked-all)
        (record { inv = dispatched-GateInv; queue = refl; had_waiters = had; sent = refl })
