-- ===== src/System/Refinement.antt =====
-- The manager among its connections runs as it does in its own steps, and it waits for the callbacks of
-- exactly those connections that were asked to start and still owe one.
use mathlib.Core.Path.{subst}
use asio_http.Base.{
  All, ◌++◌, ℕ, ◌+◌, ◌≤◌, true, false, Option, List, ◌∷◌, ◌==◌, Bytes, ◌≡◌, ap, sym, ◌∙◌, arith,
  inl, inr, Bool-cases, count_by, count_by-cons, count_by-nil, one_if, ==_iff, drop, drop-append,
  length, returned,
}
use asio_http.Pool.{HttpStack, HostAndPort}
use asio_http.Pool.Ownership.{holds}
use asio_http.Request.{HttpClientSettings}
use asio_http.Compression.{Zlib}
use asio_http.Manager.{RequestManager, request_manager, Effect}
use asio_http.Manager.Steps.{
  Reach as ManagerReach, later as manager_later, start as manager_start, run as manager_run,
  submit as manager_submit, cancel as manager_cancel,
}
use asio_http.Manager.Steps.Effects.{run_task-Grown, starts, started_by}
use asio_http.Manager.Steps.Invariant.{Reach-Inv}
use asio_http.Stack.{Stack, HttpParser}
use asio_http.Stack.Start.{react}
use asio_http.Stack.Kept.{IsReady, is_some, callbacks}
use asio_http.System.{
  System, Posted, is_start_posted, event, update, hand_out, hand_back, cleared, Step, submit,
  cancel as cancelling, run, deliver, outside, system, Reach, start, later,
}
use asio_http.System.Handover.{
  starts_in, hand_out-HandedOut, call_back-Answered, IsTold, hand_out-IsTold,
}
use asio_http.System.Reactions.{owes, Prepared, ready-Reacts, posted-Reacts, reacted, quiet_outside}

module _ (cast : Bytes → Option ℕ) (settings : HttpClientSettings) (z : Zlib) (h : HttpParser) where
  pub record Inv (s : System (h.State)) : Type 0 where
    pub refines : ManagerReach cast settings s.manager
    pub waits : (a : ℕ) → holds a s.manager.running ≡ starts_in (s.mailboxes a) + owes (s.stacks a)
    pub told : All (IsTold s.handles) s.manager.running
    pub ready :
        (a : ℕ)
        → is_some (s.stacks a).content.completed_request_callback ≡ true
        → IsReady (s.stacks a)

  -- A connection has reacted, and the manager waited for the callbacks it made and those it owes.
  hand_back-Inv :
      (s : System (h.State)) (a : ℕ) (t : Stack (h.State))
      → ManagerReach cast settings s.manager
      → ((b : ℕ)
          → (b == a) ≡ false
          → holds b s.manager.running ≡ starts_in (s.mailboxes b) + owes (s.stacks b))
      → holds a s.manager.running ≡ starts_in (s.mailboxes a) + (callbacks t + owes t)
      → All (IsTold s.handles) s.manager.running
      → ((b : ℕ) → Prepared z h (s.stacks b).content)
      → Prepared z h t.content
      → Inv (hand_back a t s)
  unfolding hand_back
  hand_back-Inv s a t refines others here told ready prepared =
      let (reach, answered, still) =
        call_back-Answered cast settings s.handles a t.log s.manager refines told
          (omega (arith, here)) in
      record {
        refines = reach;
        told = still;
        waits = λ b. elim (Bool-cases (b == a)) [
          | inl same ↦
              let equal = (==_iff b a).0 same in
              rw same (
                ground (
                  arith,
                  same,
                  here,
                  answered b,
                  ap (λ x. holds x s.manager.running) equal,
                  ap (λ x. starts_in (s.mailboxes x)) equal,
                ))
          | inr other ↦ rw other (ground (arith, other, others b other, answered b))
        ];
        ready = λ b. elim (Bool-cases (b == a)) [
          | inl same ↦ rw same prepared
          | inr other ↦ rw other (ready b)
        ];
      }

  hand_out-Inv :
      (s : System (h.State)) (n : RequestManager) (new : List Effect)
      → Inv s
      → ManagerReach cast settings n
      → ((a : ℕ) → holds a n.running ≡ holds a s.manager.running + count_by (starts a) new)
      → n.running ≡ started_by new ++ s.manager.running
      → Inv (hand_out new (record s { manager = n }))
  hand_out-Inv s n new i refines grown added =
      let t = hand_out new (record s { manager = n }) in
      let (same_manager, same_stacks, posted) = hand_out-HandedOut new (record s { manager = n }) in
      record {
        refines = subst (ManagerReach cast settings) (sym same_manager) refines;
        told =
            subst (All (IsTold t.handles))
              (sym (ap (λ (m : RequestManager). m.running) same_manager ∙ added))
              (hand_out-IsTold new (record s { manager = n }) s.manager.running
                (λ a. omega (arith, grown a, (Reach-Inv cast settings refines).owns.one_place a))
                i.told);
        waits = λ a. omega (
          arith,
          i.waits a,
          grown a,
          posted a,
          ap (λ (m : RequestManager). holds a m.running) same_manager,
          ap (λ (k : ℕ → Stack (h.State)). owes (k a)) same_stacks,
        );
        ready = λ a.
            subst (λ (k : ℕ → Stack (h.State)). Prepared z h (k a).content) (sym same_stacks)
              (i.ready a);
      }

  same_address : (a : ℕ) → (a == a) ≡ true
  same_address a = ground arith

  Step-Inv : {s t : System (h.State)} → Step cast z h s t → Inv s → Inv t
  Step-Inv (submit s request handler executor token now) i = record {
    refines = manager_later i.refines (manager_submit s.manager request handler executor token now);
    waits = i.waits;
    told = i.told;
    ready = i.ready;
  }
  Step-Inv (cancelling s token) i = record {
    refines = manager_later i.refines (manager_cancel s.manager token);
    waits = i.waits;
    told = i.told;
    ready = i.ready;
  }
  Step-Inv (run s n task rest next ran) i =
      let grown = run_task-Grown cast (record (s.manager) { strand = rest }) n task ran in
      subst (λ new. Inv (hand_out new (record s { manager = n })))
        (sym (
          ap (drop (length s.manager.effects)) grown.appended
          ∙ drop-append s.manager.effects grown.new))
        (hand_out-Inv s n grown.new i
          (manager_later i.refines (manager_run s.manager n task rest next ran)) grown.waited
          grown.added)
  Step-Inv (deliver s a p rest t next reacts) i =
      let (counted, prepared) =
        reacted z h _ (event a p) (s.stacks a) t (posted-Reacts z h a p (s.stacks a) (i.ready a))
          reacts in
      hand_back-Inv (record s { mailboxes = update a rest s.mailboxes }) a t i.refines
        (λ b other. rw other (i.waits b))
        (rw (same_address a) (
          ground (
            arith,
            i.waits a,
            ap starts_in next,
            count_by-cons is_start_posted p rest,
            counted,
            (Reach-Inv cast settings i.refines).owns.one_place a,
          )))
        i.told i.ready prepared
  Step-Inv (outside s a e t o ready reacts) i =
      let (counted, prepared) =
        reacted z h _ e (s.stacks a) t
          (ready-Reacts z h e (s.stacks a) (quiet_outside z h e o) ready) reacts in
      hand_back-Inv s a t i.refines (λ b other. i.waits b) (omega (arith, i.waits a, counted))
        i.told i.ready prepared

  system-Inv :
      (hosts : ℕ → HostAndPort) (garbage : ℕ → ℕ) → Inv (system cast z h settings hosts garbage)
  unfolding request_manager
  system-Inv hosts garbage = record {
    refines = manager_start;
    told = tt;
    waits = λ a.
        omega
          (arith, count_by-nil (λ (k : HttpStack). k.address == a), count_by-nil is_start_posted);
    ready = λ a. cc;
  }

  Reach-SystemInv : {s : System (h.State)} → Reach cast z h settings s → Inv s
  Reach-SystemInv (start hosts garbage) = system-Inv hosts garbage
  Reach-SystemInv (later r step) = Step-Inv step (Reach-SystemInv r)

  module _ {s : System (h.State)} (r : Reach cast z h settings s) where
    -- Whatever the connections do, every state of the manager among them, to which each of their callbacks
    -- is posted without a test, is one that the steps of the manager alone reach, among which a
    -- connection calls back at most once for each start.
    pub manager-Reach : ManagerReach cast settings s.manager
    manager-Reach = (Reach-SystemInv r).refines

    -- In every reachable state the manager waits for a callback of a connection exactly once if a start
    -- is posted to the connection or it owes a callback, of which only one can be, and not at all
    -- otherwise.
    pub running-starts_in :
        (a : ℕ)
        → (holds a s.manager.running ≡ starts_in (s.mailboxes a) + owes (s.stacks a))
          × (starts_in (s.mailboxes a) + owes (s.stacks a) ≤ 1)
    running-starts_in a =
        let i = Reach-SystemInv r in
        (i.waits a, ground (arith, i.waits a, (Reach-Inv cast settings i.refines).owns.one_place a))

    -- In every reachable state a connection executes the first thing that is posted to it without a
    -- failure, and the callbacks it then has made and owes are those it owed before, and one more after
    -- a start, so that none is lost.
    pub posted-returns :
        (a : ℕ) (p : Posted) (rest : List Posted)
        → s.mailboxes a ≡ p ∷ rest
        → (t : Stack (h.State)) × (react z h (event a p) (cleared (s.stacks a)) ≡ returned t)
          × (callbacks t + owes t ≡ owes (s.stacks a) + one_if (is_start_posted p))
    posted-returns a p rest next =
        let i = Reach-SystemInv r in
        let (t, returns, counted, prepared) = posted-Reacts z h a p (s.stacks a) (i.ready a) in
        (
          t,
          returns,
          ground (
            arith,
            counted,
            i.waits a,
            ap starts_in next,
            count_by-cons is_start_posted p rest,
            (Reach-Inv cast settings i.refines).owns.one_place a,
          ),
        )
