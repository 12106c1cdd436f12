-- ===== src/Tools/Fileserver/Handler.antt =====
-- One request of /cgi-bin/: from the path to the answer.
use stadhouder.Base.{
  ℕ, ◌≡◌, refl, ap, inl, inr, true, Option, none, some, [], Text, codes, Option-cases, Assoc,
}
use stadhouder.Layout.{join, parent}
use stadhouder.Utf8.{Bytes, encode}
use stadhouder.Tools.Fileserver.{Paths, Script, is_within, resolve_cgi_script}
use stadhouder.Tools.Fileserver.Resolve.{resolve_cgi_script-Runs}
use stadhouder.Tools.Fileserver.Environment.{AppState, Request, cgi_environment}
use stadhouder.Tools.Fileserver.Output.{Http, Outcome, responded, build_response_from_cgi_output}

-- What becomes of the program: it cannot be started, its end cannot be waited for, or it has written
-- these bytes.
pub data Ran : Type 0 where
  not_started wait_failed : Ran
  output : Bytes → Ran

-- The program's file, its working directory, its environment and its input.
pub record Job : Type 0 where
  pub file : Text
  pub current_dir : Option Text
  pub env : Assoc Text
  pub stdin : Bytes

-- An answer without headers; the text is that up to its formatted part.
plain_response : ℕ → Text → Outcome
plain_response status text =
    responded (record { status = status; headers = []; body = encode text })

answer_to : Http → Ran → Outcome
unfolding plain_response
answer_to http not_started = plain_response 500 (codes "failed to run CGI script")
answer_to http wait_failed = plain_response 500 (codes "CGI script execution failed")
answer_to http (output stdout) = build_response_from_cgi_output http stdout

unfoldable pub job_for : AppState → Request → Script → Assoc Text → Job
job_for state r script inherited = record {
  file = script.file;
  current_dir = parent script.file;
  env = cgi_environment state r script inherited;
  stdin = r.body;
}

module _ (http : Http) (fs : Paths) (run : Job → Ran) where
  serve : AppState → Request → Assoc Text → Option Script → Outcome
  unfolding plain_response answer_to job_for
  serve state r inherited none = plain_response 404 (codes "404 Not Found (no matching CGI script)")
  serve state r inherited (some script) = answer_to http (run (job_for state r script inherited))

  -- `rest` is the path behind /cgi-bin/.
  unfoldable pub cgi_handler : AppState → Request → Assoc Text → Text → Outcome
  unfolding serve join
  cgi_handler state r inherited rest =
      serve state r inherited (resolve_cgi_script fs (join state.root (codes "cgi-bin")) rest)

-- Two systems that run programs inside of the cgi-bin directory alike answer every request alike:
-- no request makes the server run anything else.
pub cgi_handler-within :
    (http : Http) (fs : Paths) (run run' : Job → Ran) (state : AppState) (r : Request)
    (inherited : Assoc Text) (rest : Text)
    → ((job : Job)
        → is_within (join state.root (codes "cgi-bin")) job.file ≡ true
        → fs.is_file job.file ≡ true
        → run job ≡ run' job)
    → cgi_handler http fs run state r inherited rest
      ≡ cgi_handler http fs run' state r inherited rest
unfolding cgi_handler serve job_for
cgi_handler-within http fs run run' state r inherited rest same =
    let bin = join state.root (codes "cgi-bin") in
    elim (Option-cases (resolve_cgi_script fs bin rest)) [
      | inl e ↦ rw (e, serve) refl
      | inr (script, e) ↦
          let (runs, _, _) = resolve_cgi_script-Runs fs bin rest script e in
          let job = job_for state r script inherited in
          rw (e, serve) (ap (answer_to http) (same job runs.within runs.is_a_file))
    ]
