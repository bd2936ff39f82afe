-- ===== src/Tests/Dispatch.antt =====
-- The waterfall of events/dispatch.rs at two concrete Mappers: each doubles its payload, and the tail
-- adds one to what it is given.
use cordis_rs.Base.{
  nat_eq, if◌then◌else◌, err, ℕ, ◌+◌, ◌≡◌, none, List, [], ◌∷◌, String, ok, Bool, true, false,
}
use cordis_rs.Core.Events.{
  ListenerRole, plain, Hook, Event, EventContract, EventState, EventOperation, unscoped, preflight,
}
use cordis_rs.Core.Events.Dispatch.{returned_error, mapped, World, context_preflight}
use cordis_rs.Core.Events.Waterfall.{Waterfall, completed, after_selection, waterfall_inner}
use cordis_rs.Core.Events.Waterfall.Mappers.{map_loop, waterfall_inner-Loops}
use cordis_rs.Core.Events.Waterfall.Failures.{DispatchBlames, waterfall_inner-DispatchBlames}

abbrev hook : ℕ → Bool → Hook String
hook id once = record {
  id = id;
  scope = [];
  options = record { prepend = false; global = false; once = once };
  kind = plain ListenerRole.mapper "double";
}

abbrev draft : EventContract
draft = record { args = 1; output = 1 }

abbrev draft_event : Event
draft_event = record { name = "draft"; contract = draft }

abbrev registered : EventState String
registered = record {
  contracts = ("draft", draft) ∷ [];
  hooks =
      ("draft", record { order = 1 ∷ 2 ∷ []; entries = (1, hook 1 true) ∷ (2, hook 2 false) ∷ [] })
      ∷ [];
}

abbrev doubling : Waterfall String ℕ (List ℕ)
doubling = record {
  runtime = record {
    scope_membership = 8;
    invoke = λ callback args w. (ok (mapped (args + args)), w);
    unregistered = λ event snapshot w. w;
    discard = λ snapshot w. w;
  };
  run_around = λ callback payload next w. (ok (ok payload), w);
  drop_callback = λ callback w. (none, w);
  drop_output = λ output w. (none, w);
  drop_hook = λ snapshot w. (none, w);
  tail = λ payload w. (completed (payload + 1), record w { rest = payload ∷ w.rest });
  drop_tail = λ w. (none, w);
  contain_tail = λ w. w;
}

abbrev world : World String (List ℕ)
world = record { events = registered; rest = [] }

waterfall_inner-Loops_example :
    waterfall_inner doubling draft_event unscoped 5 world
    ≡ after_selection doubling
        (λ hooks. λ x. map_loop doubling "draft" hooks 5 x)
        world
        (context_preflight 8 draft_event unscoped EventOperation.waterfall registered)
unfolding context_preflight preflight
waterfall_inner-Loops_example =
    waterfall_inner-Loops doubling draft_event unscoped 5 world (tt, (tt, tt))

-- A Mapper fails at ten.
abbrev up_to_ten : Waterfall String ℕ (List ℕ)
up_to_ten = record doubling {
  runtime = record doubling.runtime {
    invoke = λ callback args w.
        if nat_eq args 10
        then (err (record { registration = none; kind = returned_error; diagnostic = "ten" }), w)
        else (ok (mapped (args + args)), w);
  };
}

waterfall_inner-DispatchBlames_example :
    DispatchBlames up_to_ten draft_event 5 world
      (context_preflight 8 draft_event unscoped EventOperation.waterfall registered)
      (waterfall_inner up_to_ten draft_event unscoped 5 world).0
waterfall_inner-DispatchBlames_example =
    waterfall_inner-DispatchBlames up_to_ten draft_event unscoped 5 world
