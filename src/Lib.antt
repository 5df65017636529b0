-- ===== src/Lib.antt =====
-- AegisQuant: the deterministic core of a research fund. A cycle turns forecasts into a target
-- book, the risk gate clamps and checks that book, orders are built from what it approves, and a
-- simulated broker fills them; ledgers in SQLite keep what was decided and why.
--
-- Common models what the components share: Python dicts as association lists in insertion order
-- (Common/Dicts), lists and Boolean tests (Common/Lists, Common/Tests), sorting (Common/Sort),
-- integers (Common/Int), calls that return or raise (Common/Results) and runs of tests that raise
-- (Common/Guards).
--
-- Num states what the program uses of `float` and of `decimal.Decimal`, neither of which is the
-- repository's code, as records of operations (Num/Ops, Num/Decimals) that the components take as
-- arguments. Num/Laws holds the laws of IEEE floats that the proofs rely on: comparisons, signs,
-- rounding that keeps order, and no law of exact arithmetic. Num/Fixed and Num/FixedDecimals are
-- one instance, exact fixed-point numbers with 15 decimals, on which the tests run.
--
-- Risk is aegis/risk/checks.py with the contracts of aegis/contracts/risk.py: the policy and its
-- validator (Risk/Policy), `_apply_safety_clamps` (Risk/Clamps), `_record_safety_violations` and
-- its parts (Risk/Checks), the turnover limit and `evaluate_risk` (Risk/Evaluate).
--
-- Broker is aegis/brokers/simulated.py with aegis/contracts/execution.py: the records
-- (Broker/Records), `execute_batch` with its rollback (Broker/Sim), and the views `state`,
-- `quantities`, `equity`, `weights` and `positions` (Broker/Marks). The validators of `Order`,
-- `Fill` and `Position` are tests of these records, which raise where the code builds one. The
-- hash of a fill is a parameter. Of `quantize` only the call of `equity` can raise here: the other
-- calls are taken to be of numbers that the context of `decimal` has room for.
--
-- Portfolio is `construct_portfolio` of aegis/quant/portfolio.py (Portfolio/Build), which turns
-- forecasts into the target weights that the risk gate then checks. The order in which a set of
-- tickers is run through is a parameter.
--
-- Orders is `build_orders` of aegis/fund/execution.py (Orders/Build). It reads the weights that
-- the risk gate approved, and the broker carries out the orders that it returns. A difference is
-- bounded by 2 ^ 53 shares where a theorem needs the float of the quantity to be exact.
--
-- Budgets is aegis/harness/budgets.py: the counters that bound a case's tool calls, cost, tokens
-- and retries (Budgets/Charges).
--
-- Runs is aegis/fund/ledger.py (Runs/Ledger), the ledger of the fund's cycles. Thesis is
-- aegis/fundamentals/thesis.py (Thesis/Ledger), the ledger of the versions of a thesis for each
-- ticker. Experiments is aegis/research_lab/experiments.py (Experiments/Ledger), whose records
-- are sealed by a chain of commitments. All three are tables of rows with the queries that the
-- code runs and the tables' constraints written out. The canonical JSON text, its SHA-256 and
-- pydantic's reading of a text are parameters (`Codec`), with the laws that texts are compared
-- exactly and that a record is read back from its own text.
--
-- Sealed is what the other tables have in common, a record under its ID as text with the text's
-- hash (Sealed/Table): `_append` and the reading loop of aegis/research_lab/outcomes.py, which
-- aegis/memory/relations.py and aegis/evidence/ledger.py have too, each with its own exception.
--
-- Evidence is aegis/evidence: the registered calculations (Evidence/Calculations), the contracts of
-- aegis/contracts/evidence.py and aegis/contracts/claims.py (Evidence/Records, Evidence/Claims),
-- `audit_evidence` (Evidence/Audit) and the ledger of audited cases (Evidence/Ledger). `Decimal`,
-- the age of a record in days and the texts of calculation IDs are parameters (`Numbers`).
--
-- Capability is aegis/harness/capability_broker.py (Capability/Broker), which charges the budgets
-- of Budgets. Tools, roles and skill names are texts there, since the broker looks at prefixes.
--
-- Memory is aegis/memory: the store of relations (Memory/Relations), and the backend with its
-- contracts (Memory/Records), its writing methods (Memory/Backend), which ask the ledger of
-- Evidence what is approved, and its reading methods (Memory/Retrieval).
--
-- Lab is the part of aegis/research_lab about learning: the outcomes and postmortems
-- (Lab/Outcomes), the boundaries of a candidate's patch (Lab/Boundaries) and the promotion gate
-- over them (Lab/Promotion). `pathlib`, the file system and the hashes are parameters.
--
-- Pit is aegis/pit_data/models.py and aegis/pit_data/ledger.py: the records (Pit/Records), the
-- ledger of artifacts with its as-of queries, and the snapshots that it writes to a directory and
-- that are loaded from there (Pit/Ledger), with files of one record on each line (Common/Lines).
--
-- The tickers of orders, fills, positions and weights stand for texts that are stripped and in
-- upper case, as normalize_ticker makes them; whether such a text has a ticker's form is a
-- parameter of the risk gate.
--
-- A text that the code takes apart is a list of code points (Common/Texts). Other texts, such as
-- tickers, sectors, IDs and hashes, are numbers, compared as the program compares the texts: the
-- order of the numbers stands for the order of the texts. Times are numbers; where the code
-- compares instants in one place and isoformat texts in another, a time has both. All loops are
-- structural recursion on the lists that the code iterates over, so no fuel is used.
--
-- Not modelled: the language-model agents, data sources and their clients, the estimation code of
-- the quantitative layers, reports, the command line and the dashboard, and the transactions and
-- files of SQLite; the tables' triggers, which reject writes that no method makes.
pub mod Common
pub mod Num
pub mod Risk
pub mod Broker
pub mod Orders
pub mod Thesis
pub mod Experiments
pub mod Budgets
pub mod Runs
pub mod Sealed
pub mod Capability
pub mod Evidence
pub mod Memory
pub mod Lab
pub mod Pit
pub mod Portfolio
