-- ===== src/Tests/Echo.antt =====
-- A PUT that echoes what it is sent, and a session with it, for the tests.
use text.Mathlib.Text.{◌==◌ as str_eq}
use tlspuffin.Base.{
  ℕ, ap, subst, Bool-cases, inl, inr, ◌<◌, ◌≡◌, refl, sym, true, false, List, [], ◌∷◌, ◌++◌,
  append-nil, length, Option, none, some, Result, ok, err, arith, if◌then◌else◌, any, ◌==◌,
}
use tlspuffin.Agent.{AgentName, AgentDescriptor, server, client, v1_3}
use tlspuffin.Algebra.Term.{Term, application, nil}
use tlspuffin.Trace.Defs.{Step, Trace, input, of_parts, no_traces, one_more}
use tlspuffin.Trace.Evaluation.{Error}
use tlspuffin.Execution.Put.{MessageResult, Put, ProtocolBehavior}
use tlspuffin.Execution.Context.{TraceContext, Factory, PutRegistry, find_factory}
use tlspuffin.Execution.Contract.{role, IsPut, IsFactory, IsRegistry}
use tlspuffin.Execution.Drain.{IsBounded}
use tlspuffin.Tests.Fixtures.{Value, value_type, number, message, symbol, exact_matcher}

-- An echoing PUT: what it was created from, and the messages that it was sent and will send.
pub record Echo : Type 0 where
  pub made_for : AgentDescriptor
  pub inbound : List ℕ
  pub outbound : List ℕ

abbrev pub take_from : List ℕ → Echo → Result Error (Option (MessageResult ℕ ℕ)) × Echo
take_from [] e = (ok none, e)
take_from (m ∷ ms) e =
    (ok (some (record { message = some m; opaque_message = m })), record e { outbound = ms })

-- Progress echoes what was sent, and claims the number of it.
abbrev pub echo_put : Put Echo ℕ ℕ ℕ
echo_put = record {
  progress = λ name e claims. (
    ok tt,
    record e { inbound = []; outbound = e.outbound ++ e.inbound },
    claims ++ length e.inbound ∷ [],
  );
  reset = λ name e claims. (ok tt, record e { inbound = []; outbound = [] }, claims);
  rename_agent = λ name e claims. (ok tt, e, claims);
  set_deterministic = λ e claims. (ok tt, e, claims);
  descriptor = λ e. e.made_for;
  is_state_successful = λ e. true;
  add_to_inbound = λ m e. record e { inbound = e.inbound ++ m ∷ [] };
  take_message_from_outbound = λ e. take_from e.outbound e;
}

abbrev pub protocol : ProtocolBehavior Value ℕ ℕ ℕ ℕ
protocol = record {
  matcher = exact_matcher;
  try_from = λ m. ok m.opaque_message;
  type_id = value_type;
  claim = λ c. record { agent_name = 0; id = number; inner = (1, c) };
  check_violation = λ claims. if any (λ c. c == 9) claims then some "nine" else none;
  create_opaque = λ m. m;
  extract_message = λ m. ok ((1, m) ∷ []);
  extract_opaque = λ m. ok ((2, m) ∷ []);
  as_message = λ v. if v.0 == 2 then some v.1 else none;
  as_opaque_message = λ v. if v.0 == 3 then some v.1 else none;
}

abbrev pub echo_factory : Factory Value ℕ ℕ Echo
echo_factory = record {
  name = "echo";
  create = λ ctx d. (ok (record { made_for = d; inbound = []; outbound = [] }), ctx.claims);
}

abbrev pub registry : PutRegistry Value ℕ ℕ Echo
registry = record { factories = echo_factory ∷ []; default = echo_factory }

pub echo_put-IsPut : IsPut echo_put
echo_put-IsPut = record {
  at_progress = λ n p cs. (refl, length p.inbound ∷ [], refl);
  at_reset = λ n p cs. (refl, [], sym (append-nil cs));
  at_rename = λ n p cs. (refl, [], sym (append-nil cs));
  at_set_deterministic = λ p cs. (refl, [], sym (append-nil cs));
  at_inbound = λ m p. refl;
  at_outbound = λ p. take_message-role p.outbound p;
}
  where
    take_message-role :
        (ms : List ℕ) (p : Echo) → role (take_from ms p).1.made_for ≡ role p.made_for
    take_message-role [] p = refl
    take_message-role (m ∷ ms) p = refl

pub registry-IsRegistry : IsRegistry echo_put registry
unfolding find_factory
registry-IsRegistry name factory e = elim (Bool-cases (str_eq "echo" name)) [
  | inr no_ ↦ cc (no_)
  | inl yes_ ↦
      let same : echo_factory ≡ factory = cc (yes_) in
      subst (IsFactory echo_put) same (record {
        at_claims = λ ctx d. ([], sym (append-nil ctx.claims));
        at_put = λ ctx d p made.
            ap (λ (r : Result Error Echo). elim r [ ok q ↦ role q.made_for | err _ ↦ role d ])
              (sym made);
      })
]

pub echo-IsBounded : IsBounded protocol echo_put (λ p. length p.outbound)
echo-IsBounded = record { at_message = λ p p' m e. shorter p.outbound p p' m refl e }
  where
    shorter :
        (ms : List ℕ) (p p' : Echo) (m : MessageResult ℕ ℕ)
        → p.outbound ≡ ms
        → take_from ms p ≡ (ok (some m), p')
        → length p'.outbound < length p.outbound
    shorter [] p p' m e h = cc
    shorter (n ∷ ms) p p' m e h = ground (arith, ap length e, ap (λ out. length out.1.outbound) h)

abbrev pub server_0 : AgentDescriptor
server_0 = record {
  name = 0;
  tls_version = v1_3;
  typ = server;
  try_reuse = false;
  client_authentication = false;
  server_authentication = true;
}

abbrev pub client_1 : AgentDescriptor
client_1 = record server_0 { name = 1; typ = client }

abbrev pub server_2 : AgentDescriptor
server_2 = record server_0 { name = 2 }

abbrev pub ping : Term Value ℕ
ping = application (symbol "fn_ping" [] message 20) nil

abbrev pub ping_to : AgentName → Step Value ℕ
ping_to name = record { agent = name; action = input ping }

abbrev pub session : Trace Value ℕ
session =
    of_parts (server_0 ∷ client_1 ∷ []) (ping_to 0 ∷ ping_to 1 ∷ [])
      (one_more (of_parts (server_2 ∷ []) (ping_to 2 ∷ []) no_traces) no_traces)

abbrev pub start : TraceContext Value ℕ ℕ Echo
start = record {
  knowledge = [];
  agents = [];
  claims = [];
  put_descriptors = [];
  deterministic = true;
}
