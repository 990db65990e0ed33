-- ===== src/Routing/Terms.antt =====
-- request_routing.py: the terms by which classify_request reads a request, Arabic ones by their code
-- points.
use ahmed_agent.Base.{List, [], ◌∷◌}
use ahmed_agent.Files.{Text}
use ahmed_agent.Files.{codes}

abbrev pub external_web_terms : List Text
external_web_terms =
    codes "web search"
    ∷ codes "web research"
    ∷ codes "search the web"
    ∷ (1575 ∷ 1576 ∷ 1581 ∷ 1579 ∷ 32 ∷ 1593 ∷ 1604 ∷ 1609 ∷ 32 ∷ 1575 ∷ 1604 ∷ 1608 ∷ 1610 ∷ 1576
        ∷ [])
    ∷ (1576 ∷ 1581 ∷ 1579 ∷ 32 ∷ 1593 ∷ 1604 ∷ 1609 ∷ 32 ∷ 1575 ∷ 1604 ∷ 1608 ∷ 1610 ∷ 1576 ∷ [])
    ∷ (1575 ∷ 1576 ∷ 1581 ∷ 1579 ∷ 32 ∷ 1601 ∷ 1610 ∷ 32 ∷ 1575 ∷ 1604 ∷ 1608 ∷ 1610 ∷ 1576 ∷ [])
    ∷ (1576 ∷ 1581 ∷ 1579 ∷ 32 ∷ 1582 ∷ 1575 ∷ 1585 ∷ 1580 ∷ 1610 ∷ [])
    ∷ (1605 ∷ 1589 ∷ 1575 ∷ 1583 ∷ 1585 ∷ 32 ∷ 1582 ∷ 1575 ∷ 1585 ∷ 1580 ∷ 1610 ∷ 1577 ∷ [])
    ∷ (1571 ∷ 1581 ∷ 1583 ∷ 1579 ∷ 32 ∷ 1578 ∷ 1608 ∷ 1579 ∷ 1610 ∷ 1602 ∷ [])
    ∷ codes "latest documentation"
    ∷ codes "official documentation"
    ∷ codes "official updates"
    ∷ codes "monitor updates"
    ∷ (1578 ∷ 1581 ∷ 1583 ∷ 1610 ∷ 1579 ∷ 1575 ∷ 1578 ∷ [])
    ∷ (1578 ∷ 1581 ∷ 1583 ∷ 1610 ∷ 1579 ∷ 1575 ∷ 1578 ∷ 32 ∷ 1585 ∷ 1587 ∷ 1605 ∷ 1610 ∷ 1577 ∷ [])
    ∷ (1575 ∷ 1604 ∷ 1585 ∷ 1587 ∷ 1605 ∷ 1610 ∷ 1577 ∷ [])
    ∷ codes "build vs buy"
    ∷ codes "build-vs-buy"
    ∷ codes "template"
    ∷ (1602 ∷ 1575 ∷ 1604 ∷ 1576 ∷ [])
    ∷ (1581 ∷ 1604 ∷ 32 ∷ 1580 ∷ 1575 ∷ 1607 ∷ 1586 ∷ [])
    ∷ (1581 ∷ 1604 ∷ 47 ∷ 116 ∷ 101 ∷ 109 ∷ 112 ∷ 108 ∷ 97 ∷ 116 ∷ 101 ∷ 32 ∷ 1580 ∷ 1575 ∷ 1607
        ∷ 1586 ∷ [])
    ∷ []

abbrev pub project_decision_terms : List Text
project_decision_terms =
    codes "project sources"
    ∷ codes "project evidence"
    ∷ codes "evidence sources"
    ∷ (1605 ∷ 1589 ∷ 1575 ∷ 1583 ∷ 1585 ∷ 32 ∷ 1575 ∷ 1604 ∷ 1605 ∷ 1588 ∷ 1585 ∷ 1608 ∷ 1593 ∷ [])
    ∷ (1571 ∷ 1583 ∷ 1604 ∷ 1577 ∷ 32 ∷ 1575 ∷ 1604 ∷ 1605 ∷ 1588 ∷ 1585 ∷ 1608 ∷ 1593 ∷ [])
    ∷ (1575 ∷ 1604 ∷ 1605 ∷ 1589 ∷ 1575 ∷ 1583 ∷ 1585 ∷ 32 ∷ 1575 ∷ 1604 ∷ 1605 ∷ 1587 ∷ 1605 ∷ 1608
        ∷ 1581 ∷ 1577 ∷ [])
    ∷ codes "approved decision"
    ∷ codes "accepted decision"
    ∷ codes "project decision"
    ∷ (1575 ∷ 1604 ∷ 1602 ∷ 1585 ∷ 1575 ∷ 1585 ∷ 32 ∷ 1575 ∷ 1604 ∷ 1605 ∷ 1593 ∷ 1578 ∷ 1605 ∷ 1583
        ∷ [])
    ∷ (1575 ∷ 1604 ∷ 1602 ∷ 1585 ∷ 1575 ∷ 1585 ∷ 32 ∷ 1575 ∷ 1604 ∷ 1605 ∷ 1602 ∷ 1576 ∷ 1608 ∷ 1604
        ∷ [])
    ∷ (1602 ∷ 1585 ∷ 1575 ∷ 1585 ∷ 32 ∷ 1575 ∷ 1604 ∷ 1605 ∷ 1588 ∷ 1585 ∷ 1608 ∷ 1593 ∷ [])
    ∷ (1602 ∷ 1585 ∷ 1575 ∷ 1585 ∷ 1575 ∷ 1578 ∷ 32 ∷ 1575 ∷ 1604 ∷ 1605 ∷ 1588 ∷ 1585 ∷ 1608 ∷ 1593
        ∷ [])
    ∷ []

abbrev pub source_status_terms : List Text
source_status_terms =
    codes "source status"
    ∷ (1581 ∷ 1575 ∷ 1604 ∷ 1577 ∷ 32 ∷ 1575 ∷ 1604 ∷ 1605 ∷ 1589 ∷ 1583 ∷ 1585 ∷ [])
    ∷ (1581 ∷ 1575 ∷ 1604 ∷ 1577 ∷ 32 ∷ 1575 ∷ 1604 ∷ 1605 ∷ 1589 ∷ 1575 ∷ 1583 ∷ 1585 ∷ [])
    ∷ codes "search provider"
    ∷ codes "page fetcher"
    ∷ (1605 ∷ 1603 ∷ 1608 ∷ 1606 ∷ 1575 ∷ 1578 ∷ 32 ∷ 1575 ∷ 1604 ∷ 1576 ∷ 1581 ∷ 1579 ∷ [])
    ∷ (1580 ∷ 1575 ∷ 1607 ∷ 1586 ∷ [])
    ∷ (1594 ∷ 1610 ∷ 1585 ∷ 32 ∷ 1580 ∷ 1575 ∷ 1607 ∷ 1586 ∷ [])
    ∷ codes "needs_setup"
    ∷ []

abbrev pub my_files_terms : List Text
my_files_terms =
    codes "my_files"
    ∷ codes "uploaded file"
    ∷ codes "uploaded files"
    ∷ (1575 ∷ 1604 ∷ 1605 ∷ 1604 ∷ 1601 ∷ 32 ∷ 1575 ∷ 1604 ∷ 1605 ∷ 1585 ∷ 1601 ∷ 1608 ∷ 1593 ∷ [])
    ∷ (1575 ∷ 1604 ∷ 1605 ∷ 1604 ∷ 1601 ∷ 1575 ∷ 1578 ∷ 32 ∷ 1575 ∷ 1604 ∷ 1605 ∷ 1585 ∷ 1601 ∷ 1608
        ∷ 1593 ∷ 1577 ∷ [])
    ∷ (1575 ∷ 1604 ∷ 1605 ∷ 1604 ∷ 1601 ∷ 1575 ∷ 1578 ∷ 32 ∷ 1575 ∷ 1604 ∷ 1605 ∷ 1578 ∷ 1575 ∷ 1581
        ∷ 1577 ∷ [])
    ∷ (1575 ∷ 1604 ∷ 1605 ∷ 1604 ∷ 1601 ∷ 32 ∷ 1575 ∷ 1604 ∷ 1601 ∷ 1593 ∷ 1604 ∷ 1610 ∷ [])
    ∷ codes "master file"
    ∷ codes "incident evidence"
    ∷ (1571 ∷ 1583 ∷ 1604 ∷ 1577 ∷ 32 ∷ 1575 ∷ 1604 ∷ 1581 ∷ 1608 ∷ 1575 ∷ 1583 ∷ 1579 ∷ [])
    ∷ codes "source of truth"
    ∷ (1605 ∷ 1589 ∷ 1583 ∷ 1585 ∷ 32 ∷ 1575 ∷ 1604 ∷ 1581 ∷ 1602 ∷ 1610 ∷ 1602 ∷ 1577 ∷ [])
    ∷ []

abbrev pub runtime_terms : List Text
runtime_terms =
    codes "runtime"
    ∷ (1608 ∷ 1602 ∷ 1578 ∷ 32 ∷ 1575 ∷ 1604 ∷ 1578 ∷ 1588 ∷ 1594 ∷ 1610 ∷ 1604 ∷ [])
    ∷ (1575 ∷ 1604 ∷ 1605 ∷ 1593 ∷ 1605 ∷ 1575 ∷ 1585 ∷ 1610 ∷ 1577 ∷ [])
    ∷ codes "architecture"
    ∷ codes "foundation"
    ∷ codes "runnable"
    ∷ codes "entrypoint"
    ∷ codes "deployment boundary"
    ∷ (1581 ∷ 1583 ∷ 32 ∷ 1575 ∷ 1604 ∷ 1606 ∷ 1588 ∷ 1585 ∷ [])
    ∷ codes "process"
    ∷ codes "processes"
    ∷ codes "worker"
    ∷ codes "workers"
    ∷ codes "deploy"
    ∷ codes "publish"
    ∷ (1575 ∷ 1604 ∷ 1606 ∷ 1588 ∷ 1585 ∷ [])
    ∷ codes "langgraph"
    ∷ codes "multi-agent"
    ∷ codes "mcts"
    ∷ []

abbrev pub project_terms : List Text
project_terms =
    codes "ahmed agent"
    ∷ codes "project"
    ∷ (1575 ∷ 1604 ∷ 1605 ∷ 1588 ∷ 1585 ∷ 1608 ∷ 1593 ∷ [])
    ∷ (1581 ∷ 1575 ∷ 1604 ∷ 1577 ∷ 32 ∷ 1575 ∷ 1604 ∷ 1605 ∷ 1588 ∷ 1585 ∷ 1608 ∷ 1593 ∷ [])
    ∷ (1575 ∷ 1604 ∷ 1605 ∷ 1581 ∷ 1575 ∷ 1583 ∷ 1579 ∷ 1575 ∷ 1578 ∷ 32 ∷ 1575 ∷ 1604 ∷ 1587 ∷ 1575
        ∷ 1576 ∷ 1602 ∷ 1577 ∷ [])
    ∷ codes "previous conversation"
    ∷ codes "what was completed"
    ∷ (1605 ∷ 1575 ∷ 32 ∷ 1578 ∷ 1605 ∷ 32 ∷ 1573 ∷ 1606 ∷ 1580 ∷ 1575 ∷ 1586 ∷ 1607 ∷ [])
    ∷ (1575 ∷ 1604 ∷ 1582 ∷ 1591 ∷ 1608 ∷ 1577 ∷ 32 ∷ 1575 ∷ 1604 ∷ 1578 ∷ 1575 ∷ 1604 ∷ 1610 ∷ 1577
        ∷ [])
    ∷ (1575 ∷ 1604 ∷ 1578 ∷ 1585 ∷ 1578 ∷ 1610 ∷ 1576 ∷ [])
    ∷ codes "sequence"
    ∷ codes "router"
    ∷ (1575 ∷ 1604 ∷ 1585 ∷ 1575 ∷ 1608 ∷ 1578 ∷ 1585 ∷ [])
    ∷ (1575 ∷ 1604 ∷ 1605 ∷ 1606 ∷ 1592 ∷ 1608 ∷ 1605 ∷ 1577 ∷ [])
    ∷ (1575 ∷ 1604 ∷ 1605 ∷ 1608 ∷ 1581 ∷ 1583 ∷ 1577 ∷ [])
    ∷ (1575 ∷ 1604 ∷ 1605 ∷ 1587 ∷ 1575 ∷ 1585 ∷ 1575 ∷ 1578 ∷ [])
    ∷ (1602 ∷ 1610 ∷ 1617 ∷ 1605 ∷ [])
    ∷ (1575 ∷ 1582 ∷ 1578 ∷ 1575 ∷ 1585 ∷ 32 ∷ 1575 ∷ 1604 ∷ 1571 ∷ 1601 ∷ 1590 ∷ 1604 ∷ [])
    ∷ (1605 ∷ 1608 ∷ 1575 ∷ 1601 ∷ 1602 ∷ 1577 ∷ [])
    ∷ (1605 ∷ 1608 ∷ 1575 ∷ 1601 ∷ 1602 ∷ 1578 ∷ 1610 ∷ 32 ∷ 1575 ∷ 1604 ∷ 1589 ∷ 1585 ∷ 1610 ∷ 1581
        ∷ 1577 ∷ [])
    ∷ (1573 ∷ 1580 ∷ 1585 ∷ 1575 ∷ 1569 ∷ 32 ∷ 1582 ∷ 1575 ∷ 1585 ∷ 1580 ∷ 1610 ∷ [])
    ∷ (1578 ∷ 1608 ∷ 1603 ∷ 1606 ∷ [])
    ∷ codes "token"
    ∷ (1575 ∷ 1604 ∷ 1585 ∷ 1575 ∷ 1576 ∷ 1591 ∷ [])
    ∷ (1575 ∷ 1604 ∷ 1604 ∷ 1608 ∷ 1580 ∷ 1575 ∷ 1578 ∷ [])
    ∷ codes "logs"
    ∷ (1578 ∷ 1576 ∷ 1608 ∷ 1610 ∷ 1576 ∷ [])
    ∷ codes "audit"
    ∷ codes "alert"
    ∷ codes "polling"
    ∷ codes "contract_seed"
    ∷ codes "quality score"
    ∷ (1571 ∷ 1587 ∷ 1574 ∷ 1604 ∷ 1577 ∷ 32 ∷ 1575 ∷ 1587 ∷ 1578 ∷ 1582 ∷ 1583 ∷ 1575 ∷ 1605 ∷ 32
        ∷ 1581 ∷ 1602 ∷ 1610 ∷ 1602 ∷ 1610 ∷ 1577 ∷ [])
    ∷ codes "model_running"
    ∷ codes "recovery"
    ∷ (1573 ∷ 1593 ∷ 1575 ∷ 1583 ∷ 1577 ∷ 32 ∷ 1578 ∷ 1588 ∷ 1594 ∷ 1610 ∷ 1604 ∷ [])
    ∷ (1605 ∷ 1575 ∷ 1578 ∷ 1578 ∷ [])
    ∷ codes "crash"
    ∷ codes "idempotency"
    ∷ []

abbrev pub evidence_terms : List Text
evidence_terms =
    codes "verify"
    ∷ codes "check"
    ∷ codes "inspect"
    ∷ (1578 ∷ 1581 ∷ 1602 ∷ 1602 ∷ [])
    ∷ (1575 ∷ 1601 ∷ 1581 ∷ 1589 ∷ [])
    ∷ (1578 ∷ 1571 ∷ 1603 ∷ 1583 ∷ [])
    ∷ (1607 ∷ 1604 ∷ 32 ∷ 1578 ∷ 1605 ∷ [])
    ∷ (1607 ∷ 1604 ∷ 32 ∷ 1578 ∷ 1608 ∷ 1580 ∷ 1583 ∷ [])
    ∷ []

abbrev pub architecture_terms : List Text
architecture_terms =
    codes "build vs buy"
    ∷ codes "build-vs-buy"
    ∷ codes "template"
    ∷ (1602 ∷ 1575 ∷ 1604 ∷ 1576 ∷ [])
    ∷ (1581 ∷ 1604 ∷ 32 ∷ 1580 ∷ 1575 ∷ 1607 ∷ 1586 ∷ [])
    ∷ (1581 ∷ 1604 ∷ 47 ∷ 116 ∷ 101 ∷ 109 ∷ 112 ∷ 108 ∷ 97 ∷ 116 ∷ 101 ∷ 32 ∷ 1580 ∷ 1575 ∷ 1607
        ∷ 1586 ∷ [])
    ∷ []
