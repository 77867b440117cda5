-- ===== src/Relay/Sound/Admits.antt =====
-- The invariant through `case opAccept` of research/gate/cmd/relay-uring/main.go: an accepted client
-- starts in phase, in a struct that is new or reset.
use flash_relay.Base.{
  ℕ, ◌+◌, ◌<◌, ◌≡◌, ◌∙◌, refl, sym, ap, inl, inr, false, List, [], ◌∷◌, none, some, arith,
  Bool-cases, ◌==◌, ==_refl, if◌then◌else◌, length,
}
use mathlib.Core.Path.{subst}
use flash_relay.Base.Int.{ℤ}
use flash_relay.Base.Words.{add64}
use flash_relay.Base.Sums.{tally}
use flash_relay.Base.Table.{lookup, insert, lookup-insert, entries-insert_new, lookup-eq_none}
use flash_relay.Worker.Ops.{max_id}
use flash_relay.Relay.State.{Conn, RelayCfg, recv, Relay}
use flash_relay.Relay.Ops
use flash_relay.Relay.Actions.{tag, blank, made_conn, get_conn}
use flash_relay.Relay.Acts.{AllBlank, relaying, closing}
use flash_relay.Relay.Phase.{Phase, pipe_ends}
use flash_relay.Relay.Sound.{Sound, PhaseAt, waits, moved}

-- `getConn` gives a struct that is blank but for its buffers, and leaves such structs.
pub record Got (cfg : RelayCfg) (w : Relay) : Type 0 where
  pub got : Conn
  pub rest : List Conn
  pub is_blank : got ≡ blank got.req_buf got.resp_buf
  pub blanks : AllBlank rest
  pub get_eq : get_conn cfg w ≡ (got, record w { conn_free = rest })

pub get_conn-Got : (cfg : RelayCfg) (w : Relay) → AllBlank w.conn_free → Got cfg w
unfolding get_conn
get_conn-Got cfg w h = elim (Bool-cases cfg.duplex) [
  | inl e ↦ record {
    got = made_conn cfg;
    rest = w.conn_free;
    is_blank = refl;
    blanks = h;
    get_eq = rw e refl;
  }
  | inr e ↦ from_list w.conn_free refl h e
]
  where
    from_list :
        (free : List Conn) → w.conn_free ≡ free → AllBlank free → cfg.duplex ≡ false → Got cfg w
    from_list [] same h e = record {
      got = made_conn cfg;
      rest = w.conn_free;
      is_blank = refl;
      blanks = subst (AllBlank) (sym same) tt;
      get_eq = ground (arith, e, same);
    }
    from_list (c ∷ cs) same h e = record {
      got = c;
      rest = cs;
      is_blank = h.0;
      blanks = h.1;
      get_eq = rw (e, same) refl;
    }

-- The worker before the client of an accept is looked at: the accept is in flight no more.
module _ (cfg : RelayCfg) (fd : ℤ) (w : Relay) (h : Sound cfg [] w)
    (small : w.next_id + 1 < max_id) where
  abbrev fresh_id : ℕ
  fresh_id = add64 w.next_id 1

  next : fresh_id ≡ w.next_id + 1
  next = omega arith

  absent : lookup fresh_id w.conns ≡ none
  absent = lookup-eq_none fresh_id w.conns (h.fresh fresh_id (omega (arith, next))).absent

  module _ (c : Conn) (free : List Conn) (is_blank : c ≡ blank c.req_buf c.resp_buf)
      (blanks : AllBlank free) where
    abbrev admitted : Relay
    admitted =
        let cc : Conn = record c { id = fresh_id; client_fd = fd } in
        record w {
          next_id = fresh_id;
          conn_free = free;
          conns = insert fresh_id cc w.conns;
          posted = recv fd (length c.req_buf) (tag fresh_id Ops.recv_req) ∷ w.posted;
        }

    abbrev cc' : Conn
    cc' = record c { id = fresh_id; client_fd = fd }

    found :
        (id : ℕ)
        → lookup id admitted.conns ≡ (if fresh_id == id then some cc' else lookup id w.conns)
    found id = lookup-insert fresh_id id cc' w.conns

    -- Nothing was outstanding for the id, and now its request is being read.
    own : PhaseAt cfg fresh_id [] admitted
    unfolding tally
    own =
        let quiet : Phase cfg none (waits fresh_id [] w) (relaying fresh_id w)
            (closing fresh_id w) =
          moved cfg absent refl refl refl (h.phase fresh_id (omega (arith, next))) in
        let none_yet = (h.fresh fresh_id (omega (arith, next))).no_relay in
        let here = ==_refl fresh_id in
        let there : lookup fresh_id admitted.conns ≡ some cc' = found fresh_id ∙ rw here refl in
        moved cfg (sym there) refl refl refl (
          inl (record {
            going = ap (λ (x : Conn). x.closing) is_blank;
            one = rw here (omega (arith, quiet.0));
            no_relay = rw here (omega (arith, none_yet));
            no_close = rw here (omega (arith, quiet.1));
            no_pipes = ap pipe_ends is_blank;
          }))

    pub admitted-Sound : Sound cfg [] admitted
    unfolding tally
    admitted-Sound = record {
      unique = λ id.
          let fresh = (h.fresh fresh_id (omega (arith, next))).absent in
          ground (arith, entries-insert_new fresh_id id cc' w.conns absent, h.unique id, fresh);
      keyed = λ id x e. elim (Bool-cases (fresh_id == id)) [
        | inl same ↦
            let i : fresh_id ≡ id = ground (arith, same) in
            cc (
              subst (λ b. (if b then some cc' else lookup id w.conns) ≡ some x) same
                  (sym (found id) ∙ e),
              i,
            )
        | inr ne ↦ h.keyed id x (
            subst (λ b. (if b then some cc' else lookup id w.conns) ≡ some x) ne
              (sym (found id) ∙ e))
      ];
      phase = λ id pos. elim (Bool-cases (fresh_id == id)) [
        | inl same ↦
            let i : fresh_id ≡ id = ground (arith, same) in
            subst (λ j. PhaseAt cfg j [] admitted) i own
        | inr ne ↦
            let there : lookup id admitted.conns ≡ lookup id w.conns = found id ∙ rw ne refl in
            moved cfg (sym there) (rw ne (omega arith)) (rw ne (omega arith)) (rw ne (omega arith))
              (h.phase id pos)
      ];
      fresh = λ id beyond.
          let old = h.fresh id (omega (arith, next)) in
          let ne : (fresh_id == id) ≡ false = ground (arith, next) in
          record {
            absent =
                rw (entries-insert_new fresh_id id cc' w.conns absent, ne)
                  (omega (arith, old.absent));
            no_relay = rw ne (omega (arith, old.no_relay));
          };
      no_zero =
          let ne : (fresh_id == 0) ≡ false = ground (arith, next) in
          rw (entries-insert_new fresh_id 0 cc' w.conns absent, ne) (omega (arith, h.no_zero));
      tidy = record { blanks = blanks };
    }
