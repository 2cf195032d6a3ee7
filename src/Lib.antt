-- ===== src/Lib.antt =====
-- Edgerouter, a load balancer and router for HTTP: discovered applications, each with frontends (which
-- hostnames and paths it takes) and a backend (what serves it), are turned into matchers, and each
-- request is resolved to a mount, checked and passed to the backend's handler.
--
-- How the parts interact. A discovery reads the applications: from a log of events, from an S3 bucket,
-- from the labels of Docker services, or from several readers in sequence. The server makes the backend
-- of each application, with a cache that keeps the backends whose configuration did not change, and
-- builds the matchers. A scheduler repeats this and hands the result to the main loop, which replaces
-- the configuration that requests are served with. Static files come from a deployment: its files and
-- its manifest are stored by their contents' digests, and the manifest handler serves them through
-- caches; a middleware in front of an application does so for the subtree that the application
-- advertises.
--
-- Files:
--   Base       what all parts share: numbers, lists, strings as lists of bytes, dictionaries (Go maps,
--              by association lists), results (a value, an error or a panic), the contract of sort.Slice
--   Config     pkg/erconfig: data types (Types), Application.Validate (Validate), the factories
--              (Factories, Options), Describe, FindApplication (Find)
--   Server     pkg/erserver: Mounts is mountresolver.go (appConfigToHandlersAndMatchers,
--              resolveMount), IpFilter is ipfilter.go, HostRegexp is hostregexp.go, Serve is
--              serveRequest of serve.go, Sync is syncAppsFromDiscovery with scheduledSync of
--              schedulersyncer.go and the main loop as a step relation
--   Backends   Handlers has the constructors of pkg/erbackend and what they take of pkg/turbocharger,
--              Director is the rewriting of requests in
--              pkg/erbackend/reverseproxybackend/reverseproxy.go,
--              Factory is pkg/erserver/backendfactory.go, AuthV0 is
--              pkg/erbackend/authv0backend/authv0.go
--   Discovery  pkg/erdiscovery: Traefik is dockerdiscovery/traefikannotations.go, Docker is
--              dockerdiscovery/docker.go, Udocker the types that it reads, EventLog is
--              ehdiscovery/ehdiscovery.go with pkg/erdomain, Multi is multidiscovery.go and
--              staticdiscovery.go, Bucket is s3discovery/s3discovery.go
--   Locks      pkg/syncutil/mutexmap.go, as a step relation
--   Turbocharger  pkg/turbocharger: Ids is types.go, Header and Middleware (with Traffic, all its
--              goroutines as a step relation) are middleware.go, Store is store-inmemory.go,
--              store-localfs.go and store-s3.go, Manifest is manifesthandler.go: Caches serves files
--              from the two caches and fills these, Resolve finds manifests, Serve is
--              ServeHTTPFromManifest; Deployment is deployment.go, its workers as a step relation
--   Commands   cmd/edgerouter/discovery.go: discoveryPut and discoveryDeleteApplication
--   Tests      runs on small inputs
--
-- Correspondence. A struct is a record, a switch on a string type a data type with a constructor for
-- each constant and one for any other string, a pointer an Option; a nil dereference or an index out
-- of range is the result `panic`. State that a function changes is passed to it and returned, and stays
-- as it is left on an error. Loops are structural recursion on the list they range over, so there is no
-- fuel, but for resolveManifest, which calls itself again after a wait: it is given a number of
-- attempts, and the result out_of_attempts says that another goroutine had the lock each time. What
-- goroutines do while one waits for a lock is a parameter, also whether the wait ends. A content is
-- read as a whole; the error of its reader is modelled where a file of the origin is copied into a
-- cache. Numbers are natural numbers; the only machine integers are lengths, addresses and times.
--
-- Parameters stand for code outside of the repository: regexp, net/netip, net.SplitHostPort,
-- net.ParseCIDR, net/url, encoding/json, encoding/base64, crypto/sha256, compress/gzip, mime, the
-- HCL decoder, sort.Slice (with its documented contract), the Docker daemon's answers, the log's
-- reader, AWS and the file system.
--
-- Not modelled: sockets, TLS, certificates, logging (but for the errors of the caches), metrics and the
-- other command lines, which are input and output; the protocol of the Lambda backend.
pub mod Base
pub mod Config
pub mod Server
pub mod Backends
pub mod Discovery
pub mod Locks
pub mod Commands
pub mod Turbocharger
pub mod Tests
