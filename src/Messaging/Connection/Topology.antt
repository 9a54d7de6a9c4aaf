-- ===== src/Messaging/Connection/Topology.antt =====
-- A channel that `channel` hands out has all exchanges, queues and bindings declared on it.
use quantum_entropy_service.Common.{
  is_none, ◌∙◌, ℕ, ◌≡◌, refl, Bool, true, false, List, [], ◌∷◌, Option, none, some, inl, GoError,
  Result, ok, ◌>>=◌, Done, bind_then, ok-injective, subst, sym,
}
use quantum_entropy_service.Messaging.Broker.{Trace, Oracle}
use quantum_entropy_service.Messaging.Exchanges.{
  Declaration, exchange, queue, binding, topology, declared_call,
}
use quantum_entropy_service.Messaging.Connection.{
  reset, close_channel_of, close_session_of, Connection, new_connection, log, connect_locked,
  declare, declared, declare_all, declare_on, declare_topology, mark_declared, ensure_topology,
  channel, close,
}
use quantum_entropy_service.Messaging.Connection.Sessions.{Use, get_channel, close_it, use_all}
use quantum_entropy_service.Messaging.Connection.Ready.{
  AllDeclared, AllDeclared-later, DeclaredOn, ReadyIf, Ready, unready, connect_locked-Ready,
}

module _ (amqp : Oracle) where
  -- What a run of declarations leaves: the channel as it was, what was declared still declared, and
  -- after a success all of `ds` declared.
  record Declares (ch : ℕ) (ds : List Declaration) (c : Connection) (r : Result Done)
      (c' : Connection) : Type 0 where
    same : c'.channel ≡ c.channel
    flag : c'.topology_declared ≡ c.topology_declared
    older : (es : List Declaration) → AllDeclared ch es c.trace → AllDeclared ch es c'.trace
    newer : r ≡ ok tt → AllDeclared ch ds c'.trace

  declare-Declares :
      (ch : ℕ) (d : Declaration) (c : Connection)
      → Declares ch (d ∷ []) c (declare amqp ch d c).0 (declare amqp ch d c).1
  unfolding declare
  declare-Declares ch d c = go d (amqp.fails c.trace)
    where
      go :
          (d : Declaration) (o : Option GoError)
          → Declares ch (d ∷ []) c (declared amqp d o) (log (declared_call ch d (is_none o)) c)
      go d none = record {
        same = refl;
        flag = refl;
        older = λ es. AllDeclared-later ch es _ _;
        newer = λ e. (inl refl, tt);
      }
      go (exchange n k) (some x) = record {
        same = refl;
        flag = refl;
        older = λ es. AllDeclared-later ch es _ _;
        newer = λ e. cc;
      }
      go (queue n) (some x) = record {
        same = refl;
        flag = refl;
        older = λ es. AllDeclared-later ch es _ _;
        newer = λ e. cc;
      }
      go (binding n x r) (some y) = record {
        same = refl;
        flag = refl;
        older = λ es. AllDeclared-later ch es _ _;
        newer = λ e. cc;
      }

  declare_all-Declares :
      (ch : ℕ) (ds : List Declaration) (c : Connection)
      → Declares ch ds c (declare_all amqp ch ds c).0 (declare_all amqp ch ds c).1
  unfolding declare_all
  declare_all-Declares ch [] c = record {
    same = refl;
    flag = refl;
    older = λ es h. h;
    newer = λ e. tt;
  }
  declare_all-Declares ch (d ∷ ds) c =
      bind_then (Declares ch (d ∷ []) c) (Declares ch (d ∷ ds) c) (declare amqp ch d)
        (λ _. declare_all amqp ch ds) c (declare-Declares ch d c)
        (λ e s k. record { same = k.same; flag = k.flag; older = k.older; newer = λ x. cc })
        (λ a s k.
          let l = declare_all-Declares ch ds s in
          record {
            same = l.same ∙ k.same;
            flag = l.flag ∙ k.flag;
            older = λ es h. l.older es (k.older es h);
            newer = λ e. ((l.older (d ∷ []) (k.newer refl)).0, l.newer e);
          })

  -- After `ensure_topology` the flag is set if and only if it succeeded, and the channel is ready.
  record Ensured (r : Result Done) (c : Connection) : Type 0 where
    ready : Ready c
    done : r ≡ ok tt → DeclaredOn c.channel c.trace

  mark :
      (o : Option ℕ) (c : Connection)
      → c.topology_declared ≡ false
      → c.channel ≡ o
      → Ensured
          ((declare_on amqp o >>= λ _. mark_declared amqp) c).0
          ((declare_on amqp o >>= λ _. mark_declared amqp) c).1
  mark none c e f = record { ready = unready amqp c e; done = λ x. cc }
  mark (some ch) c e f =
      bind_then (Declares ch topology c) Ensured (declare_all amqp ch topology)
        (λ _. mark_declared amqp) c (declare_all-Declares ch topology c)
        (λ x s k. record { ready = unready amqp s (k.flag ∙ e); done = λ y. cc })
        (λ a s k.
          let h = subst (λ o. DeclaredOn o s.trace) (sym (k.same ∙ f)) (k.newer refl) in
          record { ready = record { ready = h }; done = λ _. h })

  ensure_topology-Ensured :
      (b : Bool) (c : Connection)
      → c.topology_declared ≡ b
      → Ready c
      → Ensured (ensure_topology amqp b c).0 (ensure_topology amqp b c).1
  unfolding declare_topology
  ensure_topology-Ensured true c e h = record {
    ready = h;
    done = λ _. subst (λ b. ReadyIf b c.channel c.trace) e h.ready;
  }
  ensure_topology-Ensured false c e h = mark c.channel c e refl

  pub record Handed (r : Result (Option ℕ)) (c : Connection) : Type 0 where
    pub ready : Ready c
    pub handed : (o : Option ℕ) → r ≡ ok o → DeclaredOn o c.trace

  pub channel-Handed : (c : Connection) → Ready c → Handed (channel amqp c).0 (channel amqp c).1
  unfolding channel
  channel-Handed c h =
      bind_then (λ _. Ready) Handed (connect_locked amqp) _ c (connect_locked-Ready amqp c h)
        (λ e s k. record { ready = k; handed = λ o x. cc })
        (λ a s k.
          bind_then Ensured Handed (λ c. ensure_topology amqp c.topology_declared c)
            (λ _ c. (ok c.channel, c)) s (ensure_topology-Ensured s.topology_declared s refl k)
            (λ e t l. record { ready = l.ready; handed = λ o x. cc })
            (λ a t l. record {
              ready = l.ready;
              handed = λ o e. subst (λ o. DeclaredOn o t.trace) (ok-injective e) (l.done refl);
            }))

  close-Ready : (c : Connection) → Ready (close amqp c).1
  unfolding close
  close-Ready c = go c.session c.channel
    where
      go :
          (s ch : Option ℕ)
          → Ready
              (close_session_of amqp s
                (close_channel_of amqp ch [] (reset amqp c)).0
                (close_channel_of amqp ch [] (reset amqp c)).1).1
      go none none = record { ready = tt }
      go none (some ch) = record { ready = tt }
      go (some s) none = record { ready = tt }
      go (some s) (some ch) = record { ready = tt }

  pub use_all-Ready : (us : List Use) (c : Connection) → Ready c → Ready (use_all amqp us c)
  unfolding use_all
  use_all-Ready [] c h = h
  use_all-Ready (get_channel ∷ us) c h =
      use_all-Ready us (channel amqp c).1 (channel-Handed c h).ready
  use_all-Ready (close_it ∷ us) c h = use_all-Ready us (close amqp c).1 (close-Ready c)

  pub new_connection-Ready : Ready new_connection
  unfolding new_connection
  new_connection-Ready = record { ready = tt }

  -- After any sequence of calls of `channel` and `close` on a new connection, whatever the broker
  -- answered: if `channel` then succeeds, it returns a channel, and on that channel every exchange,
  -- queue and binding of the topology was declared with success.
  pub channel-AllDeclared :
      (us : List Use) (o : Option ℕ)
      → let c = use_all amqp us new_connection in
        (channel amqp c).0 ≡ ok o
        → (ch : ℕ) × (o ≡ some ch) × AllDeclared ch topology (channel amqp c).1.trace
  channel-AllDeclared us o e = at (channel amqp (use_all amqp us new_connection)).1.trace o (
      (channel-Handed (use_all amqp us new_connection)
          (use_all-Ready us new_connection new_connection-Ready)).handed
        o e)
    where
      at :
          (t : Trace) (o : Option ℕ)
          → DeclaredOn o t
          → (ch : ℕ) × (o ≡ some ch) × AllDeclared ch topology t
      at t none h = elim h [ ]
      at t (some ch) h = (ch, refl, h)
