-- ===== src/Reactor/Table.antt =====
-- `g_events` and the kernel's interest list: `eventset`, `eventadd`, `eventdel`.
-- `epoll_ctl` and `close` do what their manual pages say. Where `epoll_ctl` fails to add or to modify,
-- the code prints a line and goes on.
use computer_science_notes.Base.{
  ℕ, List, Option, none, some, Bool, false, ◌==◌, if◌then◌else◌, update,
}

abbrev pub max_events : ℕ
max_events = 1024

abbrev pub buflen : ℕ
buflen = 128

abbrev pub epollin : ℕ
epollin = 1

abbrev pub epollout : ℕ
epollout = 4

pub data Callback : Type 0 where
  no_callback acceptconn recvdata senddata : Callback

-- `struct myevent_s`; `arg` is always the entry itself and is left out.
pub record Entry : Type 0 where
  pub fd : ℕ
  pub events : ℕ
  pub call_back : Callback
  pub status : ℕ
  pub buf : List ℕ
  pub len : ℕ
  pub last_active : ℕ

-- The program with its kernel side: which entry each descriptor is registered with and for what,
-- and which descriptors are open.
pub record Reactor : Type 0 where
  pub g_events : ℕ → Entry
  pub interest : ℕ → Option (ℕ × ℕ)
  pub is_open : ℕ → Bool

unfoldable pub eventset : Entry → ℕ → Callback → ℕ → Entry
eventset ev fd call_back now = record ev {
  fd = fd;
  events = 0;
  call_back = call_back;
  status = 0;
  last_active = now;
}

-- EPOLL_CTL_MOD needs an entry for the descriptor, EPOLL_CTL_ADD needs that there is none.
abbrev pub ctl_mod : (ℕ → Option (ℕ × ℕ)) → ℕ → ℕ × ℕ → ℕ → Option (ℕ × ℕ)
ctl_mod interest fd e = elim (interest fd) [
  | none ↦ interest
  | some old ↦ update interest fd (some e)
]

abbrev pub ctl_add : (ℕ → Option (ℕ × ℕ)) → ℕ → ℕ × ℕ → ℕ → Option (ℕ × ℕ)
ctl_add interest fd e = elim (interest fd) [
  | none ↦ update interest fd (some e)
  | some old ↦ interest
]

-- The entry with index `i` is `ev` by now; it is stored and registered. `able` says whether the
-- kernel has the memory and the watches that `epoll_ctl` needs (ENOMEM, ENOSPC); where it has not,
-- the list stays as it is.
unfoldable pub eventadd : Reactor → ℕ → Entry → ℕ → Bool → Reactor
eventadd r i ev events able =
    if ev.status == 1
    then record r {
      g_events = update r.g_events i (record ev { events = events });
      interest = if able then ctl_mod r.interest ev.fd (i, events) else r.interest;
    }
    else record r {
      g_events = update r.g_events i (record ev { events = events; status = 1 });
      interest = if able then ctl_add r.interest ev.fd (i, events) else r.interest;
    }

unfoldable pub eventdel : Reactor → ℕ → Entry → Reactor
eventdel r i ev =
    if ev.status == 1
    then record r {
      g_events = update r.g_events i (record ev { status = 0 });
      interest = update r.interest ev.fd none;
    }
    else record r { g_events = update r.g_events i ev }

-- Closing a descriptor takes it out of the interest list.
unfoldable pub close : Reactor → ℕ → Reactor
close r fd = record r { interest = update r.interest fd none; is_open = update r.is_open fd false }
