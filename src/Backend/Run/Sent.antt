-- ===== src/Backend/Run/Sent.antt =====
-- What `run` of qiskit_ibm_provider/ibm_backend.py sends to the server.
use qiskit_ibm_provider.Common.{
  ◌≡◌, ◌⊎◌, ◌↔◌, refl, ap, ◌∙◌, inl, inr, String, Bool, true, false, none, some, List, ◌∷◌, All,
  if◌then◌else◌, arith, Result, ok, raise,
}
use qiskit_ibm_provider.Common.Exec.{continue, pure, ◌>>◌}
use qiskit_ibm_provider.Backend.{
  BackendServer, Settings, Properties, Backend, BackendError, backend_value_error, Request, Input,
  Method, get_target, fetch_target, status,
}
use qiskit_ibm_provider.Backend.Circuits.{
  IsRunnable, check_circuits_attributes, check_circuits_attributes_iff,
}
use qiskit_ibm_provider.Backend.Run.Asked.{
  IsProgram, AreParameters, program_of-IsProgram, with_skip-AreParameters,
}
use qiskit_ibm_provider.Backend.Run.{
  RunArguments, program_of, is_dynamic, replace_id, deprecate_id_instruction, runtime_run, request,
  send, given_once, replaced_circuits, run_replaced, warn_paused, warn_dynamic, run_guarded, submit,
  esp_supported, run_checked, run,
}

abbrev raises : {A : Type 0} → Result BackendError A → Bool
raises (ok a) = false
raises (raise e) = true

module _ {D T : Type 0} (server : BackendServer D T) (settings : Settings) where
  -- The circuits as they were given, or with their identity gates replaced for some target.
  abbrev pub Replaced : List Input → List Input → Type 0
  Replaced inputs sent = (sent ≡ inputs) ⊎ ((t : T) × (sent ≡ server.convert t inputs))

  -- The request is the one that the arguments ask for.
  abbrev pub IsAskedFor : RunArguments → List Input → Request → Type 0
  IsAskedFor a inputs q =
      IsProgram a.program_id (is_dynamic a inputs) q.program_id
      × Replaced inputs q.circuits
      × AreParameters server settings a q.program_id q.params
      × (q.hgp ≡ settings.hgp_name)
      × (q.job_tags ≡ a.job_tags)

  -- Nothing is sent, and an exception is raised; or one request, the one that was asked for.
  abbrev pub Sends :
      RunArguments → List Input → Backend D T → Result BackendError String × Backend D T → Type 0
  Sends a inputs b (r, c) =
      ((raises r ≡ true) × (c.sent ≡ b.sent))
      ⊎ ((q : Request) × (c.sent ≡ q ∷ b.sent) × IsAskedFor a inputs q)

  send-Sends :
      (a : RunArguments) (inputs replaced : List Input) (b c : Backend D T)
      → c.sent ≡ b.sent
      → Replaced inputs replaced
      → {x : Unit {0}} → given_once a.program_id ≡ ok x
      → Sends a inputs b
          (send server settings a (program_of a.program_id (is_dynamic a inputs)) replaced c)
  unfolding send runtime_run
  send-Sends a inputs replaced b c same kept once =
      let program_id = program_of a.program_id (is_dynamic a inputs) in
      let q = request server settings a (program_of a.program_id (is_dynamic a inputs)) replaced in
      inr (
        q,
        ap (λ sent. q ∷ sent) same,
        (
          program_of-IsProgram a.program_id (is_dynamic a inputs) once,
          kept,
          with_skip-AreParameters server settings a program_id,
          refl,
          refl,
        ),
      )

  module _ (a : RunArguments) (inputs : List Input) (b : Backend D T) where
    -- What comes after a part that has sent nothing.
    after_part :
        {A : Type 0} (r : Result BackendError A) (f : A → Method D T String) (c : Backend D T)
        → c.sent ≡ b.sent
        → ((x : A) → r ≡ ok x → Sends a inputs b (f x c))
        → Sends a inputs b (continue r f c)
    after_part (ok x) f c same later = later x refl
    after_part (raise e) f c same later = inl (refl, same)

    submit-Sends :
        (replaced : List Input) (c : Backend D T)
        → c.sent ≡ b.sent
        → Replaced inputs replaced
        → Sends a inputs b
            (submit server settings a (program_of a.program_id (is_dynamic a inputs)) replaced c)
    unfolding submit
    submit-Sends replaced c same kept =
        let program_id = program_of a.program_id (is_dynamic a inputs) in
        after_part (given_once a.program_id) (λ _. send server settings a program_id replaced) c
          same (λ x e. send-Sends a inputs replaced b c same kept e)

    -- The circuits after the replacement of the identity gates.
    abbrev Prepared : Backend D T → Result BackendError (List Input) × Backend D T → Type 0
    Prepared c (ok replaced, d) = (d.sent ≡ c.sent) × Replaced inputs replaced
    Prepared c (raise e, d) = d.sent ≡ c.sent

    get_target_sent : (c : Backend D T) → (get_target server settings none false c).1.sent ≡ c.sent
    unfolding get_target fetch_target
    get_target_sent c = ground arith

    after_target :
        (o : Result BackendError T × Backend D T) (c : Backend D T)
        → o.1.sent ≡ c.sent
        → Prepared c (continue o.0 (λ t d. (ok (server.convert t inputs), d)) o.1)
    after_target (ok t, d) c same = (same, inr (t, refl))
    after_target (raise e, d) c same = same

    replace_id-Prepared : (c : Backend D T) → Prepared c (replace_id server settings inputs c)
    unfolding replace_id
    replace_id-Prepared c =
        after_target (get_target server settings none false _) c (get_target_sent _)

    choice-Prepared :
        (test : Bool) (m n : Method D T (List Input)) (c : Backend D T)
        → Prepared c (m c)
        → Prepared c (n c)
        → Prepared c ((if test then m else n) c)
    choice-Prepared true m n c h k = h
    choice-Prepared false m n c h k = k

    replaced_circuits-Prepared :
        (c : Backend D T) → Prepared c (replaced_circuits server settings inputs c)
    unfolding replaced_circuits deprecate_id_instruction
    replaced_circuits-Prepared c =
        choice-Prepared _ (pure inputs) (deprecate_id_instruction server settings inputs) c
          (refl, inl refl)
          (choice-Prepared _ (replace_id server settings inputs) (pure inputs) c
            (replace_id-Prepared c) (refl, inl refl))

    after_preparation :
        (o : Result BackendError (List Input) × Backend D T) (c : Backend D T)
        → c.sent ≡ b.sent
        → Prepared c o
        → Sends a inputs b (
            continue o.0
              (submit server settings a (program_of a.program_id (is_dynamic a inputs)))
              o.1)
    after_preparation (ok replaced, d) c same prepared =
        submit-Sends replaced d (prepared.0 ∙ same) prepared.1
    after_preparation (raise e, d) c same prepared = inl (refl, prepared ∙ same)

    run_replaced-Sends :
        (c : Backend D T)
        → c.sent ≡ b.sent
        → Sends a inputs b (run_replaced server settings a inputs c)
    unfolding run_replaced
    run_replaced-Sends c same =
        after_preparation (replaced_circuits server settings inputs c) c same
          (replaced_circuits-Prepared c)

    status_sent : (c : Backend D T) → (status server settings c).1.sent ≡ c.sent
    unfolding status
    status_sent c = ground arith

    run_checked-Sends :
        (c : Backend D T)
        → c.sent ≡ b.sent
        → Sends a inputs b (run_checked server settings a inputs c)
    unfolding run_checked
    run_checked-Sends c same =
        after_part (status server settings c).0
          (λ st. warn_paused server settings a st >> run_replaced server settings a inputs)
          (status server settings c).1 (status_sent c ∙ same)
          (λ st e. run_replaced-Sends _ (status_sent c ∙ same))

    -- The circuits may run on the device, and `use_measure_esp` is supported if it is set.
    abbrev pub Allowed : Properties → Type 0
    Allowed p =
        All (IsRunnable settings.configuration p) inputs × (esp_supported server settings a ≡ true)

    -- Nothing is sent, and an exception is raised; or one request, which was asked for and allowed.
    abbrev pub Submits : Properties → Result BackendError String × Backend D T → Type 0
    Submits p (r, c) =
        ((raises r ≡ true) × (c.sent ≡ b.sent))
        ⊎ ((q : Request) × (c.sent ≡ q ∷ b.sent) × IsAskedFor a inputs q × Allowed p)

    with_permission :
        (p : Properties) (o : Result BackendError String × Backend D T)
        → Sends a inputs b o
        → Allowed p
        → Submits p o
    with_permission p (r, c) (inl nothing) h = inl nothing
    with_permission p (r, c) (inr (q, sent, asked)) h = inr (q, sent, asked, h)

    after_guard :
        (p : Properties) (test : Bool) (c : Backend D T)
        → esp_supported server settings a ≡ test
        → All (IsRunnable settings.configuration p) inputs
        → c.sent ≡ b.sent
        → Submits p (
            continue
              (if test then ok tt else raise backend_value_error)
              (λ _. warn_dynamic server settings a inputs >> run_checked server settings a inputs)
              c)
    after_guard p true c e h same =
        let warned = (warn_dynamic server settings a inputs c).1 in
        with_permission p (run_checked server settings a inputs warned)
          (run_checked-Sends warned same) (h, e)
    after_guard p false c e h same = inl (refl, same)

    after_check :
        (p : Properties) (o : Result BackendError (Unit {0}) × Backend D T)
        → o.1 ≡ b
        → (o.0 ≡ ok tt) ↔ All (IsRunnable settings.configuration p) inputs
        → Submits p (continue o.0 (λ _. run_guarded server settings a inputs) o.1)
    unfolding run_guarded
    after_check p (raise e, c) same runnable = inl (refl, ap (λ d. d.sent) same)
    after_check p (ok x, c) same runnable =
        after_guard p (esp_supported server settings a) c refl (runnable.0 refl)
          (ap (λ d. d.sent) same)

    -- On a device whose properties are kept, `run` sends nothing and raises, or it sends one request:
    -- to the program that the user names, and without one to "qasm3-runner" for dynamic and to
    -- "circuit-runner" for static circuits; with the circuits as they are or with their identity gates
    -- replaced; with the parameters of `_get_run_config`, of which "skip_transpilation" is set unless
    -- the program is a qasm3-runner; and with the hub and the tags. It sends only when each of the
    -- circuits may run on the device, and `use_measure_esp` is supported if it is set.
    pub run-Submits :
        (p : Properties)
        → settings.configuration.simulator ≡ false
        → b.properties ≡ some p
        → Submits p (run server settings a inputs b)
    unfolding run
    run-Submits p device known =
        let (same, runnable) =
          check_circuits_attributes_iff server settings device p b known inputs in
        after_check p (check_circuits_attributes server settings inputs b) same runnable
