-- ===== src/Examples/Opening.antt =====
-- Endpoints made and destroyed at concrete inputs.
use nanomsg_transport_ofi.Prelude.{ℕ, ◌+◌, ◌≡◌, refl, true, false, none, some, [], ◌∷◌, pos, einval}
use nanomsg_transport_ofi.Address.{Text, Hinted}
use nanomsg_transport_ofi.Resources.{Resources}
use nanomsg_transport_ofi.Cofi
use nanomsg_transport_ofi.Transport.{
  Network, Core, Endpoint, calls, connect, cofi_destroy, with_world,
}
use nanomsg_transport_ofi.Transport.Lasting.{connect-destroy}
use nanomsg_transport_ofi.Transport.Fabrics.{open_fabric}
use nanomsg_transport_ofi.Transport.Refusing.{connect-unserviced}

-- The world counts the questions to libfabric.
abbrev net : Network ℕ
net = record {
  fi_getinfo = λ q w. ((pos 0, some 1), w + 1);
  fi_fabric = λ w. (pos 0, w);
  pool_init = λ w. (pos 0, w);
  fi_domain = λ w. (pos 0, w);
  close_domain = λ d w. w;
  pool_term = λ w. w;
}

abbrev core : Core (Hinted ℕ)
core = record {
  epbase_init = λ w. w;
  epbase_term = λ w. w;
  fsm_init = λ w. w;
  fsm_term = λ w. w;
  backoff_init = λ w. w;
  backoff_term = λ w. w;
  getworker = λ w. w;
  worker_term = λ w. w;
}

abbrev machine : Cofi.Parts (Hinted ℕ)
machine = record {
  sofi_init = λ w. (pos 0, w);
  sofi_start_connect = λ w. (pos 0, w);
  sofi_stop = λ w. w;
  sofi_term = λ w. w;
  sofi_isidle = λ w. true;
  backoff_start = λ w. w;
  backoff_stop = λ w. w;
  backoff_isidle = λ w. true;
  set_error = λ e w. w;
  fsm_stopped = λ w. w;
  epbase_stopped = λ w. w;
}

abbrev hinted : Hinted ℕ
hinted = record { fabric_attr = none; buffers = 4 ∷ []; world = 0 }

-- One fabric is open already.
abbrev resources : Resources (Hinted ℕ)
resources = record { fabrics = open_fabric 20 [] ∷ []; world = hinted }

-- h:5
abbrev host : Text
host = b'h' ∷ b':' ∷ b'5' ∷ []

connect-unserviced_example :
    connect net core machine 9 (b'*' ∷ b'@' ∷ b't' ∷ []) 30 40 resources
    ≡ record { ret = einval; endpoint = none; resources = resources }
connect-unserviced_example =
    connect-unserviced net core machine 9 30 40 (b'*' ∷ []) (b't' ∷ []) resources refl refl refl

abbrev joined : Endpoint (Cofi.Outcome (Hinted ℕ))
joined = record {
  fabric = 30;
  domain = 40;
  machine = Cofi.done (record { state = Cofi.active; world = record hinted { world = 1 } });
}

host-joined : (connect net core machine 9 host 30 40 resources).endpoint ≡ some joined
unfolding connect
host-joined = refl

connect-destroy_example :
    (cofi_destroy
      (calls net 9 host false)
      core
      30
      40
      (with_world (connect net core machine 9 host 30 40 resources).resources hinted)).fabrics
    ≡ open_fabric 20 [] ∷ open_fabric 30 [] ∷ []
connect-destroy_example =
    connect-destroy net core machine 9 host 30 40 resources joined hinted refl host-joined
