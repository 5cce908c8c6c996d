-- ===== src/Lib.antt =====
-- QuerySmith: a tool that takes the execution plan of a SQL Server query, finds what is wrong with
-- it by fixed rules (Tier 0), and has a local language model explain the findings and draft fixes
-- (Tier 1). This library models the parts of it that decide: the plan's representation, the rules,
-- the two engines in front of the model, the validation of SQL texts, and the database session.
--
-- How the parts interact. An adapter turns plan XML into an `IrPlan`. `evaluate` makes the list of
-- findings from it; the position of a finding in that list is the index by which the model's
-- answers refer to it. `summarize_plan` condenses the plan for the prompt; `get_narration` asks the
-- model for explanations, and `propose_fixes`, on request, for SQL texts, each of which has to pass
-- `validate_select_only` or `validate_create_index_only`. `capture_plan_xml` runs a validated
-- query on the server to get the plan XML, and `list_views` reads the catalog.
--
-- Which file models which part (paths below src/querysmith/):
--   Ir, Ir/Names              ir/models.py: the dataclasses, and the values of the enums. The
--                             fields of `Operator` are `OperatorInfo`, the tree is `Operator`.
--   Adapter/Xml               the elements that lxml hands out.
--   Adapter/OperatorMap,      adapters/sqlserver/operator_map.py and plan_xml_to_ir.py: the tables,
--   Extract, Counters,        the readers of one element, its threads' counters, the operator of one
--   Node, Build,              element, the tree, whose state is the counter and the warnings so far,
--   MissingIndexes            and the missing indexes.
--   Adapter/Build/Shown       the specification of the tree: what a plan shows of its document.
--   Rules/Finding, Script,    rules/models.py and rules/engine.py: one function for each rule, its
--   Checks, Engine            body's parts by name; `collect` is the rules in order, `evaluate`
--                             the sort behind it.
--   Rules/Due                 the specification of the rules: which findings a plan calls for.
--   Rules/Order, Coverage     the proofs of `evaluate` against it.
--   Narration/Models          narration/models.py.
--   Narration/PlanSummary     narration/plan_summary.py.
--   Narration/Prompt          narration/prompt.py and narration/fix_prompt.py.
--   Narration/Response        `_extract_explanations` and `_extract_suggested_fixes` of
--                             narration/engine.py: both are `extract_texts` with their key.
--   Narration/Engine          `get_narration`; `assemble` is what follows the model's call.
--   Narration/FixEngine       narration/fix_engine.py; `draft` is what follows the model's call.
--   Narration/OllamaClient    narration/ollama_client.py; Json/Dumps writes its request, and
--                             Json/Dumps/Literal is JSON's grammar of a text.
--   Db/QuerySafety            db/query_safety.py; `gate` is the frame that both validators share.
--   Db/Connection, Driver     db/connection.py; the calls on pyodbc, kept in a trace.
--   Db/Capture, Catalog       db/capture.py and db/catalog.py.
--   Web/Session, LastResult   web/session.py and web/last_result.py: the stores' methods.
--   Web/Schemas, Replies      web/schemas.py, and the copies of results into it in web/app.py.
--   Web/Handler, App          the handlers of web/app.py: a handler computes, and in between calls
--                             a method of a store.
--   Web/System                the application: requests arrive, and handlers take their steps in any
--                             order.
--   Web/Production            the functions that the application injects by default.
--   Web/Invariant, Refinement, what holds in every order of steps; Races has two particular orders,
--   Schedules, Races          Schedules the handlers that no other one interrupts.
--   Web/Laws, Connecting,     the handlers run alone, requests in sequence, and the findings of a
--   Disconnected, Explained   response beside the model's answer.
--   Cli/Run, Report           cli.py: `run`, and `format_report` as a list of lines; Laws has its ways
--                             to end.
--   Cli/Main, Web/Server      the declared options and `main` of cli.py and web/server.py; Argparse
--                             has what argparse is told and what it gives.
--   Pipeline                  the steps from a captured text to findings, as the handlers and the
--                             command line share them; Pipeline/Reported and Asked from an
--                             operator's or a missing index's element to its finding, Named from a
--                             finding to its element.
--   Prelude, Text, Json       what the code uses of Python: exceptions as values (`Outcome`),
--                             stable sorting, methods of `str`, numbers as text, json.dumps.
--
-- Conventions. A function that may raise returns an `Outcome`, and an `except` clause is a case on
-- the exception. A `dict[int, str]` is the list of its entries in order of insertion. Loops are
-- structural recursion; only the digits of a number (Text/Numerals) take fuel, one more than the
-- number, which is more than it has digits. A client of the model is a function from a prompt
-- and a model's name to an outcome.
--
-- Parameters. Floating point is the record `Float` (Float): comparison, conversion and printing,
-- with Float/Sample as an instance on hundredths. sqlglot is the record `Sqlglot`
-- (Db/QuerySafety): its parser, and what the code asks of an expression. pyodbc is the record
-- `Driver` (Db/Driver): its calls, each with its outcome. lxml's parser and its search by path are
-- the record `Lxml` (Adapter/Xml). A result set is what its rows and the step to the next set give
-- when they are asked for. The request to the model's server and json.loads, of a body's
-- bytes and of a text, are the record `Http` (Narration/OllamaClient); a body stands for its bytes. argparse is a function from the declared options and the
-- arguments to its exit or its namespace, and uvicorn a function of its arguments.
--
-- Not modelled: the log line for an operator that has no type, the files that only re-export names,
-- and of the web application what FastAPI and pydantic do: routing, parsing and checking bodies, and
-- writing the JSON.
pub mod Prelude
pub mod Text
pub mod Float
pub mod Ir
pub mod Rules
pub mod Json
pub mod Narration
pub mod Db
pub mod Adapter
pub mod Argparse
pub mod Pipeline
pub mod Web
pub mod Cli
