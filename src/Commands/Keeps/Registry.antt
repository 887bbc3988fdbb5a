-- ===== src/Commands/Keeps/Registry.antt =====
-- crates/gamestore-datamodel/src/registry.rs: a request that is dispatched keeps a store consistent.
use game_store.Prelude.{Option, none, some, Bool-cases, inl, inr, List, [], ◌∷◌, All, ◌==◌, length}
use game_store.Prelude.Int.{ℤ}
use game_store.Bytes.{Bytes, text, ◌==ᵇ◌}
use game_store.Engine.Interface.{IsReliable}
use game_store.Protocol.Text.{FloatText}
use game_store.Protocol.Frame.{RespVersion, Frame, simple, bulk, error}
use game_store.Store.Base.{Host, Store}
use game_store.Commands.Text.{to_ascii_uppercase, from_utf8_lossy}
use game_store.Commands.Base.{reply, arg, wrong_args}
use game_store.Commands.Connectivity.{ping, echo}
use game_store.Commands.Registry.{
  CommandHandler, CommandSpec, CommandRegistry, arity_matches, find, register, register_list,
  run_spec, dispatch, connectivity, strings, hashes, sets, sorted_sets, lists, admin, register_all,
  standard,
}
use game_store.Commands.Keeps.{Keeps, reply-Keeps, if-Keeps}
use game_store.Commands.Keeps.Strings
use game_store.Commands.Keeps.Collections
use game_store.Commands.Keeps.SortedSets

module _ ⦃h : Host⦄ (laws : IsReliable h.engine) where
  abbrev HandlerKeeps : CommandHandler (Store h) → Type 0
  HandlerKeeps handler = (v : RespVersion) (args : List Bytes) → Keeps laws (handler v args)

  -- Every command of a table keeps a store consistent.
  abbrev pub TableKeeps : CommandRegistry (Store h) → Type 0
  TableKeeps commands = All (λ e. HandlerKeeps e.1.handler) commands

  register_list-Keeps :
      (rest : List (Bytes × ℤ × CommandHandler (Store h))) (commands : CommandRegistry (Store h))
      → All (λ e. HandlerKeeps e.2) rest
      → TableKeeps commands
      → TableKeeps (register_list rest commands)
  unfolding register_list register
  register_list-Keeps [] commands k l = l
  register_list-Keeps ((name, arity, handler) ∷ rest) commands k l =
      register_list-Keeps rest (register name arity handler commands) k.1 (k.0, l)

  FoundKeeps : Option (CommandSpec (Store h)) → Type 0
  FoundKeeps none = Unit
  FoundKeeps (some spec) = HandlerKeeps spec.handler

  find-FoundKeeps :
      (name : Bytes) (commands : CommandRegistry (Store h))
      → TableKeeps commands
      → FoundKeeps (find name commands)
  unfolding find FoundKeeps
  find-FoundKeeps name [] k = tt
  find-FoundKeeps name ((key, found) ∷ commands) k = elim (Bool-cases (key ==ᵇ name)) [
    | inl same ↦ rw same k.0
    | inr other ↦ rw other (find-FoundKeeps name commands k.1)
  ]

  run_found-Keeps :
      (o : Option (CommandSpec (Store h))) (unknown : Frame) (v : RespVersion) (args : List Bytes)
      → FoundKeeps o
      → Keeps laws (elim o [ none ↦ reply unknown | some spec ↦ run_spec spec v args ])
  unfolding run_spec FoundKeeps
  run_found-Keeps none unknown v args k = reply-Keeps laws unknown
  run_found-Keeps (some spec) unknown v args k =
      if-Keeps laws (arity_matches spec.arity (length args)) (spec.handler v args)
        (reply (wrong_args spec.name_lower)) (k v args)
        (reply-Keeps laws (wrong_args spec.name_lower))

  pub dispatch-Keeps :
      (commands : CommandRegistry (Store h)) (v : RespVersion) (args : List Bytes)
      → TableKeeps commands
      → Keeps laws (dispatch commands v args)
  unfolding dispatch
  dispatch-Keeps commands v [] k = reply-Keeps laws (error (text "ERR empty command"))
  dispatch-Keeps commands v (first ∷ args) k =
      let name = to_ascii_uppercase (from_utf8_lossy first) in
      run_found-Keeps (find name commands) _ v (first ∷ args) (find-FoundKeeps name commands k)

  module _ (floats : FloatText) where
    ping-Keeps : HandlerKeeps ping
    unfolding ping
    ping-Keeps v args =
        if-Keeps laws (length args == 1) _ _ (reply-Keeps laws (simple (text "PONG"))) (
          if-Keeps laws (length args == 2) _ _ (reply-Keeps laws (bulk (arg args 1)))
            (reply-Keeps laws (wrong_args (text "ping"))))

    echo-Keeps : HandlerKeeps echo
    unfolding echo
    echo-Keeps v args = reply-Keeps laws (bulk (arg args 1))

    admin-Keeps : All (λ e. HandlerKeeps e.2) (admin)
    unfolding admin
    admin-Keeps = (
      Collections.dbsize-Keeps laws,
      (Collections.rawcount-Keeps laws, (Collections.compact-Keeps laws, tt)),
    )

    lists-Keeps : All (λ e. HandlerKeeps e.2) (lists)
    unfolding lists
    lists-Keeps = (
      Collections.push-Keeps laws,
      (
        Collections.push-Keeps laws,
        (
          Collections.pop-Keeps laws,
          (
            Collections.pop-Keeps laws,
            (Collections.lrange-Keeps laws, (Collections.llen-Keeps laws, tt)),
          ),
        ),
      ),
    )

    sorted_sets-Keeps : All (λ e. HandlerKeeps e.2) (sorted_sets floats)
    unfolding sorted_sets
    sorted_sets-Keeps = (
      SortedSets.zadd-Keeps laws floats,
      (
        SortedSets.zscore-Keeps laws floats,
        (
          SortedSets.zrange-Keeps laws floats,
          (
            SortedSets.zrangebyscore-Keeps laws floats,
            (SortedSets.zrem-Keeps laws floats, (SortedSets.zcard-Keeps laws floats, tt)),
          ),
        ),
      ),
    )

    sets-Keeps : All (λ e. HandlerKeeps e.2) (sets)
    unfolding sets
    sets-Keeps = (
      Collections.sadd-Keeps laws,
      (
        Collections.srem-Keeps laws,
        (
          Collections.sismember-Keeps laws,
          (Collections.smembers-Keeps laws, (Collections.scard-Keeps laws, tt)),
        ),
      ),
    )

    hashes-Keeps : All (λ e. HandlerKeeps e.2) (hashes)
    unfolding hashes
    hashes-Keeps = (
      Collections.hset-Keeps laws,
      (
        Collections.hset-Keeps laws,
        (
          Collections.hget-Keeps laws,
          (
            Collections.hmget-Keeps laws,
            (
              Collections.hgetall-Keeps laws,
              (
                Collections.hdel-Keeps laws,
                (Collections.hlen-Keeps laws, (Collections.hexists-Keeps laws, tt)),
              ),
            ),
          ),
        ),
      ),
    )

    strings-Keeps : All (λ e. HandlerKeeps e.2) (strings)
    unfolding strings
    strings-Keeps = (
      Strings.set-Keeps laws,
      (
        Strings.get-Keeps laws,
        (
          Strings.del-Keeps laws,
          (
            Strings.exists-Keeps laws,
            (
              Strings.type_of-Keeps laws,
              (
                Strings.expire-Keeps laws,
                (
                  Strings.pexpire-Keeps laws,
                  (Strings.ttl-Keeps laws, (Strings.pttl-Keeps laws, tt)),
                ),
              ),
            ),
          ),
        ),
      ),
    )

    connectivity-Keeps : All (λ e. HandlerKeeps e.2) connectivity
    unfolding connectivity
    connectivity-Keeps = (ping-Keeps, (echo-Keeps, tt))

    pub standard-Keeps : TableKeeps (standard floats)
    unfolding standard register_all
    standard-Keeps =
        let t₁ = register_list connectivity [] in
        let t₂ = register_list strings t₁ in
        let t₃ = register_list hashes t₂ in
        let t₄ = register_list sets t₃ in
        let t₅ = register_list (sorted_sets floats) t₄ in
        let t₆ = register_list lists t₅ in
        let k₁ = register_list-Keeps connectivity [] connectivity-Keeps tt in
        let k₂ = register_list-Keeps strings t₁ strings-Keeps k₁ in
        let k₃ = register_list-Keeps hashes t₂ hashes-Keeps k₂ in
        let k₄ = register_list-Keeps sets t₃ sets-Keeps k₃ in
        let k₅ = register_list-Keeps (sorted_sets floats) t₄ sorted_sets-Keeps k₄ in
        let k₆ = register_list-Keeps lists t₅ lists-Keeps k₅ in
        register_list-Keeps admin t₆ admin-Keeps k₆
