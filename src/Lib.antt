-- ===== src/Lib.antt =====
-- KubeNetMods: the decisions behind its network diagnosis of a Kubernetes Service.
--
-- The program looks at a Service, its pods, the network policies and the Istio objects around it, probes
-- the path from a source pod, and writes a report of results and diagnoses. The parts that decide are
-- modelled here; what the API server, the shell in a pod and the Go libraries answer are arguments.
--
--   Prelude    tests, lists, texts as lists of code points, sorting, signed integers, messages (fmt)
--   Model      internal/model/model.go: the report; NewReport takes the time. Model.Laws holds its laws,
--              Model.Steps composes the writes of handlers.
--   Cluster    the Kubernetes objects with the fields that are read, and two interfaces: Selectors (the
--              label selectors of apimachinery) and Netip (net/netip)
--   Native     internal/policy/native/native.go: Names (uniqueStrings, FormatPorts), Ports (PortsAllow),
--              Peers (IPBlockContains, PeerMatchesPod), Rules (the rule and policy tests), Allow (what a
--              rule allows), Path (analyzeNativeEgress and analyzeNativeIngress of
--              internal/check/service_policy.go, with addInsights) and Path.Verdict
--   Service    internal/check/service_target.go: Selection (selectServicePort), Ports
--              (collectContainerPorts, selectedConnectionPortCandidates), Endpoints (checkEndpoints);
--              internal/check/service_runtime.go: Reach (the parts of checkRuntimePath that ask nothing),
--              Reach.Route (what follows a URL's answer), Reach.Route.Steps (the loop over the URLs),
--              Reach.Direct (the pods, and checkRuntimePath)
--   Istio      internal/check/istio_*.go: Config (the Istio objects), Request (newIstioHTTPRequest),
--              Matching (HTTP route matches), Patterns and Rules (the rule language of
--              AuthorizationPolicy), Policies (which policies apply, the risky rules), Client (listings and visibility),
--              Authz (the explanation of an RBAC denial), Sidecar (the scope of a workload's sidecar),
--              Traffic (hosts, subsets and destinations) with Traffic.Routing, Traffic.Weighted and
--              Traffic.Intentional (the three inspections of istio_traffic.go) and Traffic.Numbers
--              (atoi, time.Duration), Mtls (PeerAuthentication and TLS modes) with Mtls.Checks (the two
--              inspections), Signal (istio.go: what Envoy's answer says and which inspection explains it)
--   Calico     internal/policy/calico/analyze.go, the decision for a path: Value (unstructured objects),
--              Ports (portTokenMatches, calicoEntityPortsMatch), Entity (calicoEntityMatchesPod), Paths
--              (ruleMatchesPath), Order (sortRuleMatches, Pass), Decision and Profiles (the rules of
--              policies and profiles), Verdict (calicoDirectionDecision, analyzePath), Dns
--              (analyzeDNSEgress)
--   Runtime    internal/runtime/runtime.go: Shell (ShellQuote and the commands), Urls
--              (BuildServiceURLs), Resolv (ParseResolvConf), Probe (readiness and failures), Exec (the
--              probes, over a shell)
--   Tests      a small cluster, at which the theorems are applied
--
-- A function of the source has its name in snake_case. A handler that writes to the report takes the
-- report and returns it. A nil pointer is `none`, a Go map the list of its entries in the order in which
-- Go walks it, and a panic of the source is `none` or a constructor `panic` of the result. Integers are
-- signed and unbounded: the source only compares int and int32 values that the API server has bounded,
-- and converts them through int32PortFromInt and uint32PortFromInt32, whose ranges are written out.
-- A loop of the modelled code that walks a list is a structural recursion. The loop over Pass actions is
-- on fuel, one round more than there are matches, and every round goes to a later tier. The digits of a
-- number are computed on fuel, one round more than the number, which is more than it has digits.
--
-- Texts are lists of code points; strings.ToLower is modelled on ASCII letters, which are all that the
-- keywords, host names and header names compared by the code contain. `%q` is written out for printable
-- text with tabs and line ends. compactCommandOutput counts code points here and bytes in the source, which
-- differ only where a command answers beyond ASCII.
--
-- The Calico modules take float64 (Floats), the selector language of libcalico-go, which selector.go wraps
-- (CalicoSelectors), and the printing of an odd JSON value as parameters. What the Istio client answers, with
-- the printing of floats and durations and the Go libraries for selectors, regular expressions and URLs, is
-- one record (Signal.Environment); the shell of the source pod is a function from a command to its output
-- (Runtime.Exec.Exec), so a probe that is repeated answers the same.
--
-- checkRuntimePath goes from resolv.conf over the weighted routes to the URLs of the Service in their order,
-- and then to the pods. A run carries the report, the signals and route behaviors that were explained, and
-- whether a URL was reached; newIstioHTTPRequest, which several inspections call, can panic, and `none` is
-- that panic. A time.Duration is an int64 whose wrap-around is written out (Traffic.Numbers).
--
-- Not modelled: Calico's host endpoints and blockers, the Cilium policy engine, the Gateway API checks, the
-- MTU and NodePort checks, the choice of the source pod, the command line, the rendering of reports, and the
-- client that talks to the API server.
pub mod Prelude
pub mod Model
pub mod Cluster
pub mod Service
pub mod Native
pub mod Istio
pub mod Runtime
pub mod Calico
pub mod Tests
