-- ===== src/Controller/Events.antt =====
-- `registerHandlers` of internal/controller/controller.go: which informers get an event handler, and
-- what it does.
use kbeacon.Prelude.{List, keep}
use kbeacon.Text.{Text, str, elem}
use kbeacon.Controller.Loop.{Loop, request_rebuild, request, Reach, later}
use kbeacon.Controller.Status.{Controller, resource_order}

pub data Event : Type 0 where
  object_added object_updated object_deleted : Event

abbrev pub reason_of : Event → Text
reason_of object_added = str "add"
reason_of object_updated = str "update"
reason_of object_deleted = str "delete"

-- The resources whose informers get a handler.
unfoldable pub registered : Controller → List Text
registered c = keep (λ name. elem name c.informers) resource_order

-- What a handler of any resource does with an event.
unfoldable pub handle_event : Event → Loop → Loop
handle_event event s = request_rebuild (reason_of event) s

-- Events that arrive in a reachable state of the rebuild loop, at any time, lead to a reachable state.
handle_event-Reach : (event : Event) (s : Loop) → Reach s → Reach (handle_event event s)
unfolding handle_event
handle_event-Reach event s h = later h (request (reason_of event) s)
